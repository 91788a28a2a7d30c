-- ===== src/Lww/Order.antt =====
-- compareLww is a total order on stamps.
use cinder.Prelude.{◌≡◌, not, arith}
use cinder.Lww.{LwwStamp, LwwOrder, less, equal, greater, compare_lww, lww_wins_over, lww_covers}

abbrev pub opposite : LwwOrder → LwwOrder
opposite less = greater
opposite equal = equal
opposite greater = less

-- Swapping the arguments swaps the answer.
pub compare_lww-opposite : (a b : LwwStamp) → compare_lww a b ≡ opposite (compare_lww b a)
unfolding compare_lww
compare_lww-opposite a b = ground arith

pub compare_lww_self : (a : LwwStamp) → compare_lww a a ≡ equal
unfolding compare_lww
compare_lww_self a = ground arith

pub eq_of_equal : (a b : LwwStamp) → compare_lww a b ≡ equal → a ≡ b
unfolding compare_lww
eq_of_equal a b h = ground arith

pub greater_trans :
    (a b c : LwwStamp)
    → compare_lww a b ≡ greater
    → compare_lww b c ≡ greater
    → compare_lww a c ≡ greater
unfolding compare_lww
greater_trans a b c h k = ground arith

pub wins-not-covers : (a b : LwwStamp) → lww_wins_over a b ≡ not (lww_covers b a)
unfolding lww_wins_over lww_covers
wins-not-covers a b = ground arith
