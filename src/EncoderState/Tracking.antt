-- ===== src/EncoderState/Tracking.antt =====
-- Every operation of the encoder keeps its history one epoch of pulses.
use ros_pre_runner.Prelude.{
  ℕ, zero, suc, ◌+◌, ◌*◌, ◌≤◌, ◌≡◌, refl, Bool, true, false, not, ◌||◌, Option, none, some, List,
  [], ◌∷◌, ◌⊎◌, inl, inr, ltb, leb, if_both, length, arith,
}
use mathlib.Core.Path.{subst}
use ros_pre_runner.Prelude.Int.{ℤ, pos, negsuc}
use ros_pre_runner.Prelude.Float.{Float, zero_f}
use ros_pre_runner.EncoderState.State.{
  built, maxsize, EncoderState, BadSetting, HistoryDepth, an_int, other, min_edge_interval_ns,
  max_lookback_ns, append, prune_history, is_at_rest, is_bounce, begins_epoch, init,
  validate_history_depth, update_direction, record_edge, after_measurement, measure, is_reversed,
  Call, call, run, direction, edge, measured,
}
use ros_pre_runner.EncoderState.Epoch.{
  IsEpoch, IsRecent, append-IsEpoch, prune_history-IsEpoch, prune_history-IsRecent,
  prune_history-IsRecent_keep, last_from, Spaced, Spaced-last,
}

-- At rest there is no history; in motion there is a last edge, and the history, where it is not empty, is one
-- epoch up to that edge.
abbrev Tracked : ℕ → ℕ → Bool → Option ℕ → List ℕ → Type 0
Tracked timeout n true last xs = xs ≡ []
Tracked timeout n false none xs = ⊥
Tracked timeout n false (some last) xs = IsEpoch timeout n last xs × IsRecent last xs

abbrev pub IsTracked : EncoderState → Type 0
IsTracked e =
    (2 ≤ e.maxlen)
    × Tracked e.stationary_timeout_ns e.maxlen e.stationary e.last_edge_ns e.edge_timestamps_ns

-- An edge that is no bounce and begins no epoch goes on with the one there is.
append-Tracked :
    (timeout n : ℕ) (stationary : Bool) (l : Option ℕ) (xs : List ℕ) (t : ℕ)
    → 2 ≤ n
    → Tracked timeout n stationary l xs
    → (stationary || is_at_rest timeout l t) ≡ false
    → is_bounce l t ≡ false
    → IsEpoch timeout n t (append n xs t)
append-Tracked timeout n true l xs t m h p q = absurd (cc)
append-Tracked timeout n false none xs t m h p q = absurd h
append-Tracked timeout n false (some last) xs t m (h, r) p q =
    append-IsEpoch timeout n last t xs m h (ground arith) (ground arith)

prune_history-Tracked :
    (timeout n reference : ℕ) (stationary : Bool) (l : Option ℕ) (xs : List ℕ)
    → Tracked timeout n stationary l xs
    → is_at_rest timeout l reference ≡ false
    → Tracked timeout n false l (prune_history reference xs)
prune_history-Tracked timeout n reference stationary none xs h p = absurd (cc)
prune_history-Tracked timeout n reference true (some last) [] h p = (tt, tt)
prune_history-Tracked timeout n reference true (some last) (x ∷ xs) h p = ground arith
prune_history-Tracked timeout n reference false (some last) xs (h, r) p = (
  prune_history-IsEpoch timeout n last reference xs h,
  prune_history-IsRecent_keep timeout n last reference xs h r,
)

pruned-Tracked :
    (timeout n t : ℕ) (xs : List ℕ)
    → IsEpoch timeout n t xs
    → Tracked timeout n false (some t) (prune_history t xs)
pruned-Tracked timeout n t xs h =
    (prune_history-IsEpoch timeout n t t xs h, prune_history-IsRecent timeout n t xs h)

record_edge-IsTracked : (e : EncoderState) (t : ℕ) → IsTracked e → IsTracked (record_edge e t)
unfolding record_edge
record_edge-IsTracked e t (m, h) =
    if_both IsTracked (is_bounce e.last_edge_ns t) (λ q. (m, h))
      (λ q.
        if_both
          (λ l. IsTracked (record l {
            stationary = false;
            last_edge_ns = some t;
            edge_timestamps_ns = prune_history t (append l.maxlen l.edge_timestamps_ns t);
          }))
          (begins_epoch e t)
          (λ p.
            (m, pruned-Tracked e.stationary_timeout_ns e.maxlen t (t ∷ []) (tt, refl, omega arith)))
          (λ p. (
            m,
            pruned-Tracked e.stationary_timeout_ns e.maxlen t
                (append e.maxlen e.edge_timestamps_ns t)
                (append-Tracked e.stationary_timeout_ns e.maxlen e.stationary e.last_edge_ns
                  e.edge_timestamps_ns t m h p q),
          )))

measure-IsTracked :
    (e : EncoderState) (l : Option ℕ) (t : ℕ)
    → IsTracked (record e { last_edge_ns = l })
    → IsTracked (measure e l t)
measure-IsTracked e l t (m, h) =
    if_both IsTracked (is_at_rest e.stationary_timeout_ns l t) (λ p. (m, refl))
      (λ p. (
        m,
        prune_history-Tracked e.stationary_timeout_ns e.maxlen t e.stationary l e.edge_timestamps_ns
            h p,
      ))

after_measurement-IsTracked :
    (e : EncoderState) (t : ℕ) → IsTracked e → IsTracked (after_measurement e t)
unfolding after_measurement
after_measurement-IsTracked e t (m, h) =
    if_both (λ l. IsTracked (measure e l t)) (is_reversed e.last_edge_ns t) (λ p. (m, refl))
      (λ p. measure-IsTracked e e.last_edge_ns t (m, h))

update_direction-IsTracked :
    (e : EncoderState) (d : ℤ) → IsTracked e → IsTracked (update_direction e d).0
unfolding update_direction
update_direction-IsTracked e (pos zero) h = h
update_direction-IsTracked e (pos (suc zero)) h = h
update_direction-IsTracked e (pos (suc (suc n))) h = h
update_direction-IsTracked e (negsuc zero) h = h
update_direction-IsTracked e (negsuc (suc n)) h = h

run_from-IsTracked : (e : EncoderState) (ks : List Call) → IsTracked e → IsTracked (run e ks)
unfolding run call
run_from-IsTracked e [] h = h
run_from-IsTracked e (direction d ∷ ks) h =
    run_from-IsTracked (update_direction e d).0 ks (update_direction-IsTracked e d h)
run_from-IsTracked e (edge t ∷ ks) h =
    run_from-IsTracked (record_edge e t) ks (record_edge-IsTracked e t h)
run_from-IsTracked e (measured t ∷ ks) h =
    run_from-IsTracked (after_measurement e t) ks (after_measurement-IsTracked e t h)

-- What the constructor builds, if it builds an encoder.
abbrev BuiltTracked : BadSetting ⊎ EncoderState → Type 0
BuiltTracked (inl bad) = Unit
BuiltTracked (inr e) = IsTracked e

built-BuiltTracked :
    (timeout : ℕ) (depth : HistoryDepth)
    → BuiltTracked (built timeout (validate_history_depth depth))
unfolding validate_history_depth
built-BuiltTracked timeout other = tt
built-BuiltTracked timeout (an_int (negsuc n)) = tt
built-BuiltTracked timeout (an_int (pos n)) =
    if_both (λ v. BuiltTracked (built timeout v)) (ltb n 1) (λ p. tt)
      (λ p.
        if_both (λ v. BuiltTracked (built timeout v)) (leb maxsize n) (λ q. tt)
          (λ q. (ground arith, refl)))

-- Neighbours are at least the debounce interval apart.
abbrev pub Apart : ℕ → List ℕ → Type 0
Apart x [] = Unit
Apart x (y ∷ ys) = (x + min_edge_interval_ns ≤ y) × Apart y ys

Spaced-Apart : (timeout x : ℕ) (xs : List ℕ) → Spaced timeout x xs → Apart x xs
Spaced-Apart timeout x [] s = tt
Spaced-Apart timeout x (y ∷ ys) (a, b, s) = (a, Spaced-Apart timeout y ys s)

Tracked-span :
    (timeout n : ℕ) (stationary : Bool) (l : Option ℕ) (x : ℕ) (xs : List ℕ)
    → Tracked timeout n stationary l (x ∷ xs)
    → (x + length xs * min_edge_interval_ns ≤ last_from x xs)
      × (last_from x xs ≤ x + max_lookback_ns)
      × (length (x ∷ xs) ≤ n)
      × Apart x xs
Tracked-span timeout n true l x xs h = ground arith
Tracked-span timeout n false none x xs h = absurd h
Tracked-span timeout n false (some last) x xs ((s, e, l), r) =
    (Spaced-last timeout x xs s, omega arith, l, Spaced-Apart timeout x xs s)

module _ {F : Type 0} ⦃fl : Float F⦄ where
  init-BuiltTracked : (sec : F) (depth : HistoryDepth) → BuiltTracked (init sec depth)
  unfolding init
  init-BuiltTracked sec depth =
      let timeout = fl.to_int (fl.mul sec (fl.of_int 1000000000)) in
      if_both BuiltTracked (not (fl.is_finite sec) || fl.le sec zero_f) (λ p. tt)
        (λ p.
          if_both BuiltTracked (leb timeout 0) (λ q. tt) (λ q. built-BuiltTracked timeout depth))

  -- Whatever timeout and depth the constructor accepted, and after any calls with any clock, also one that
  -- goes back: at rest the history is empty; in motion a last edge is known, and the history, where it is
  -- not empty, ends with that edge, its neighbours are at least the debounce and less than the timeout
  -- apart, and it keeps to the depth and, up to that edge, to the lookback.
  pub run-IsTracked :
      (sec : F) (depth : HistoryDepth) (e : EncoderState) (ks : List Call)
      → init sec depth ≡ inr e
      → IsTracked (run e ks)
  run-IsTracked sec depth e ks h =
      let b : BuiltTracked (inr e) = subst BuiltTracked h (init-BuiltTracked sec depth) in
      run_from-IsTracked e ks b

  -- Whatever the constructor accepted, and after any calls with any clock: a history of n + 1
  -- timestamps spans at least n times the debounce interval and at most the lookback, it keeps to the
  -- depth, and its neighbours are at least the debounce interval apart.
  pub run-span :
      (sec : F) (depth : HistoryDepth) (e : EncoderState) (ks : List Call) (x : ℕ) (xs : List ℕ)
      → init sec depth ≡ inr e
      → (run e ks).edge_timestamps_ns ≡ x ∷ xs
      → (x + length xs * min_edge_interval_ns ≤ last_from x xs)
        × (last_from x xs ≤ x + max_lookback_ns)
        × (length (x ∷ xs) ≤ (run e ks).maxlen)
        × Apart x xs
  run-span sec depth e ks x xs h p =
      let r = run e ks in
      let (m, k) = run-IsTracked sec depth e ks h in
      Tracked-span r.stationary_timeout_ns r.maxlen r.stationary r.last_edge_ns x xs
        (subst (Tracked r.stationary_timeout_ns r.maxlen r.stationary r.last_edge_ns) p k)
