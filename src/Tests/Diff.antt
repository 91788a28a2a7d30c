-- ===== src/Tests/Diff.antt =====
-- Two entries of a node and three rows of its partner, two of them for one hash.
use cinder.Prelude.{true, ℕ, ◌≡◌, refl, false, List, [], ◌∷◌, Bytes}
use cinder.Lww.{fresh_entry, set_version, version, lww_wins_over, stamp_of}
use cinder.AntiEntropy.{MetaRow}
use cinder.AntiEntropy.Diff.{Entry, diff_rows, decide_row, is_covered}
use cinder.AntiEntropy.Diff.Single.{last_row}
use cinder.AntiEntropy.Diff.Answers.{occurrences, keys_sent}
use cinder.AntiEntropy.Diff.Sorted.{is_ascending, first_hashes}
use cinder.AntiEntropy.Diff.Decision.{entry_with, diff_rows_lem}

abbrev hash : Bytes → ℕ
hash [] = 0
hash (b ∷ bs) = b

abbrev bucket : Bytes → ℕ
bucket key = 1

abbrev entries : List Entry
entries = (10 ∷ [], set_version fresh_entry 5) ∷ (20 ∷ [], set_version fresh_entry 2) ∷ []

abbrev row : ℕ → ℕ → MetaRow
row h v = record { bucket = 1; tombstone = false; key_hash = h; version = v; writer = 0 }

abbrev rows : List MetaRow
rows = row 10 9 ∷ row 10 3 ∷ row 30 1 ∷ []

diff_rows_lem_example :
    (occurrences (diff_rows hash bucket (1 ∷ []) [] entries rows).need 10 ≡ 0)
    × (keys_sent (diff_rows hash bucket (1 ∷ []) [] entries rows).have 10 ≡ (10 ∷ []) ∷ [])
    × (is_ascending (diff_rows hash bucket (1 ∷ []) [] entries rows).need ≡ true)
    × (is_ascending (first_hashes (diff_rows hash bucket (1 ∷ []) [] entries rows).have) ≡ true)
unfolding entry_with last_row set_version version
diff_rows_lem_example =
    diff_rows_lem hash bucket (1 ∷ []) [] entries rows 10 refl (refl, (refl, tt))

sent_and_fetched :
    diff_rows hash bucket (1 ∷ []) [] entries rows
    ≡ record { need = 30 ∷ []; have = (10, 10 ∷ []) ∷ (20, 20 ∷ []) ∷ [] }
unfolding diff_rows decide_row is_covered lww_wins_over stamp_of set_version
sent_and_fetched = refl
