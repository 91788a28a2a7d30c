-- ===== src/Tests/Failure.antt =====
-- The failure detector of node `a`, with one peer `b`.
use cinder.Prelude.{
  List, ◌≡◌, refl, arith, true, false, some, [], ◌∷◌, Bytes, Map, find, same_bytes,
}
use cinder.Membership.{NodeInfo, suspect, alive, get, snapshot, mark_alive}
use cinder.Failure.{
  PeerState, Cluster, on_probe_result, tick, is_known_dead, start, rebuild_peers, assign, sweep,
  to_dead, clear_suspected, escalate_suspects, next_target, skips, start_probe, mark_all_suspect,
  mark_all_dead, set_probe_pending, is_suspected, set_suspected, note_result, notify, probe_pending,
}
use cinder.Failure.Streaks.{IsStreak}
use cinder.Failure.Runs.{Step, ticked, reported, run, run-IsStreak}
use cinder.Failure.Silence.{ticks, silence_kills_nobody}
use cinder.Failure.Escalation.{suspicion_ends}
use cinder.Failure.Targets.{is_awaited, tick_target}

abbrev a : Bytes
a = 97 ∷ []

abbrev b : Bytes
b = 98 ∷ []

abbrev info : Bytes → NodeInfo
info id = record { id = id; host = []; port = 0; state = alive; incarnation = 0; joined_at = 0 }

abbrev cluster : Map PeerState → Cluster
cluster m = record {
  detector = record {
    self = a;
    suspect_timeout = 10;
    peers = b ∷ [];
    next_peer = 0;
    peer_state = m;
  };
  table = record { self_id = a; nodes = (a, info a) ∷ (b, info b) ∷ [] };
}

abbrev probed : Map PeerState
probed = (b, record { sent_at = 5; suspect_since = 0; flags = 1; consecutive_failures = 0 }) ∷ []

started :
    start (record (cluster []) { detector = record ((cluster []).detector) { peers = [] } })
    ≡ cluster []
unfolding start rebuild_peers snapshot
started = refl

first_tick : tick 5 (cluster []) ≡ (cluster probed, some b)
unfolding tick sweep to_dead clear_suspected escalate_suspects next_target skips start_probe
    mark_all_suspect mark_all_dead find assign get set_probe_pending
first_tick = refl

-- Two failed probes, with the tick that sends the second one.
abbrev steps : List Step
steps = reported 20 b false ∷ ticked 25 ∷ reported 30 b false ∷ []

run-IsStreak_example : IsStreak 2 (run steps (on_probe_result 10 (cluster probed) b true)) b
unfolding tick sweep to_dead clear_suspected escalate_suspects next_target skips start_probe
    mark_all_suspect mark_all_dead find assign get set_probe_pending set_suspected is_suspected
    on_probe_result note_result mark_alive notify probe_pending
run-IsStreak_example =
    run-IsStreak 10 steps (cluster probed) b
      (record { sent_at = 5; suspect_since = 0; flags = 1; consecutive_failures = 0 }) (info b) refl
      refl (tt, ((refl, refl), (tt, tt)))

silence_kills_nobody_example :
    is_known_dead (ticks (100 ∷ 200 ∷ 300 ∷ []) (cluster probed)).table b
    ≡ is_known_dead (cluster probed).table b
unfolding is_suspected
silence_kills_nobody_example =
    silence_kills_nobody (100 ∷ 200 ∷ 300 ∷ []) (cluster probed) b (refl, tt)

abbrev failed_twice : PeerState
failed_twice = record { sent_at = 20; suspect_since = 10; flags = 2; consecutive_failures = 2 }

-- The cluster after two failed probes of `b`.
abbrev suspicious : Cluster
suspicious = record (cluster ((b, failed_twice) ∷ [])) {
  table = record {
    self_id = a;
    nodes = (a, info a) ∷ (b, record (info b) { state = suspect }) ∷ [];
  };
}

suspicion_ends_example : is_known_dead (tick 21 suspicious).0.table b ≡ true
unfolding find get is_suspected
suspicion_ends_example =
    suspicion_ends 21 suspicious b failed_twice (record (info b) { state = suspect }) refl refl
      (omega arith) refl refl

-- The tick that ends the suspicion of `b` pings it too.
tick_target_example :
    (same_bytes b a ≡ false)
    × (is_known_dead suspicious.table b ≡ false)
    × (is_awaited 21 10 ((b, failed_twice) ∷ []) b ≡ false)
    × (is_known_dead (tick 21 suspicious).0.table b ≡ true)
unfolding tick sweep to_dead clear_suspected escalate_suspects next_target skips start_probe
    mark_all_suspect mark_all_dead find assign get set_probe_pending set_suspected is_suspected
    probe_pending
tick_target_example = tick_target 21 suspicious b refl
