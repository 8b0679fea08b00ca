-- ===== src/EncoderState/Tests.antt =====
-- An encoder with a timeout of half a second: witnesses and runs.
use ros_pre_runner.Prelude.{
  ℕ, ◌+◌, ◌*◌, ◌≤◌, ◌≡◌, refl, ap, inr, true, false, some, none, List, [], ◌∷◌, length,
}
use ros_pre_runner.Prelude.Int.{pos, negsuc}
use ros_pre_runner.Prelude.Millis.{Millis, ms, millis_float}
use ros_pre_runner.EncoderState.State.{
  EncoderState, an_int, init, run, call, record_edge, update_direction, take_measurement, Call,
  direction, edge, prune_from, after_measurement, min_edge_interval_ns, max_lookback_ns,
}
use ros_pre_runner.EncoderState.Epoch.{last_from}
use ros_pre_runner.EncoderState.Tracking.{Apart, IsTracked, run-IsTracked, run-span}
use ros_pre_runner.EncoderState.Latch.{goes_on, run-latched}

abbrev fresh : EncoderState
fresh = record {
  stationary_timeout_ns = 500000000;
  maxlen = 5;
  edge_timestamps_ns = [];
  last_edge_ns = none;
  stationary = true;
  active_direction = pos 0;
  latest_nonzero_direction = pos 0;
}

fresh_built : init (ms 500) (an_int (pos 4)) ≡ inr fresh
unfolding init
fresh_built = refl

-- Forwards, three edges with a bounce among them, and then a report of reverse.
abbrev calls : List Call
calls =
    direction (pos 1)
    ∷ edge 1000000
    ∷ edge 21000000
    ∷ edge 21050000
    ∷ edge 41000000
    ∷ direction (negsuc 0)
    ∷ []

abbrev rolling : EncoderState
rolling = record fresh {
  edge_timestamps_ns = 1000000 ∷ 21000000 ∷ 41000000 ∷ [];
  last_edge_ns = some 41000000;
  stationary = false;
  active_direction = pos 1;
  latest_nonzero_direction = negsuc 0;
}

rolled : run fresh calls ≡ rolling
unfolding run call update_direction record_edge prune_from
rolled = refl

-- 50 edges a second, and 20 when the last edge is 50 ms ago
rate : (take_measurement {F = Millis} rolling 42000000).1.edge_rate ≡ ms 50000
unfolding take_measurement after_measurement prune_from
rate = refl

decayed : (take_measurement {F = Millis} rolling 91000000).1.edge_rate ≡ ms 20000
unfolding take_measurement after_measurement prune_from
decayed = refl

run-IsTracked_example : IsTracked (run fresh calls)
run-IsTracked_example = run-IsTracked (ms 500) (an_int (pos 4)) fresh calls fresh_built

run-span_example :
    (1000000 + length {A = ℕ} (21000000 ∷ 41000000 ∷ []) * min_edge_interval_ns
      ≤ last_from 1000000 (21000000 ∷ 41000000 ∷ []))
    × (last_from 1000000 (21000000 ∷ 41000000 ∷ []) ≤ 1000000 + max_lookback_ns)
    × (length {A = ℕ} (1000000 ∷ 21000000 ∷ 41000000 ∷ []) ≤ (run fresh calls).maxlen)
    × Apart 1000000 (21000000 ∷ 41000000 ∷ [])
run-span_example =
    run-span (ms 500) (an_int (pos 4)) fresh calls 1000000 (21000000 ∷ 41000000 ∷ []) fresh_built
      (ap (λ (r : EncoderState). r.edge_timestamps_ns) rolled)

run-latched_example :
    (run rolling (direction (negsuc 0) ∷ edge 61000000 ∷ [])).active_direction ≡ pos 1
unfolding goes_on call update_direction
run-latched_example = run-latched rolling (direction (negsuc 0) ∷ edge 61000000 ∷ []) refl
