-- ===== src/EncoderState/Latch.antt =====
-- When the encoder takes a new direction, and when it says that the wheel rests.
use ros_pre_runner.Prelude.{
  ◌∙◌, ℕ, zero, suc, ◌+◌, ◌≤◌, ◌<◌, ◌≡◌, refl, sym, ◌∙◌, ◌⊎◌, inl, inr, Bool-cases, ◌↔◌, Bool, true,
  false, not, ◌&&◌, Option, none, some, List, [], ◌∷◌, if◌then◌else◌, if_both, arith,
}
use ros_pre_runner.Prelude.Int.{pos, negsuc}
use ros_pre_runner.Prelude.Float.{Float, zero_f}
use ros_pre_runner.EncoderState.State.{
  EncoderState, is_at_rest, begins_epoch, update_direction, record_edge, measure, is_reversed,
  after_measurement, take_measurement, Call, call, run, direction, edge, measured,
}

-- No edge among the calls begins an epoch.
abbrev pub keeps : EncoderState → Call → Bool
keeps e (edge t) = not (begins_epoch e t)
keeps e _ = true

unfoldable pub goes_on : EncoderState → List Call → Bool
goes_on e [] = true
goes_on e (k ∷ ks) = keeps e k && goes_on (call e k) ks

record_edge-direction :
    (e : EncoderState) (t : ℕ)
    → begins_epoch e t ≡ false
    → (record_edge e t).active_direction ≡ e.active_direction
unfolding record_edge
record_edge-direction e t h = ground arith

after_measurement-direction :
    (e : EncoderState) (t : ℕ) → (after_measurement e t).active_direction ≡ e.active_direction
unfolding after_measurement
after_measurement-direction e t = ground arith

call-direction :
    (e : EncoderState) (k : Call)
    → keeps e k ≡ true
    → (call e k).active_direction ≡ e.active_direction
unfolding call update_direction
call-direction e (direction (pos zero)) h = refl
call-direction e (direction (pos (suc zero))) h = refl
call-direction e (direction (pos (suc (suc n)))) h = refl
call-direction e (direction (negsuc zero)) h = refl
call-direction e (direction (negsuc (suc n))) h = refl
call-direction e (edge t) h = record_edge-direction e t (ground arith)
call-direction e (measured t) h = after_measurement-direction e t

-- The direction is latched for a whole epoch: calls in any order, reports of the other direction
-- included, leave the active direction alone unless an edge among them begins an epoch.
pub run-latched :
    (e : EncoderState) (ks : List Call)
    → goes_on e ks ≡ true
    → (run e ks).active_direction ≡ e.active_direction
unfolding run goes_on
run-latched e [] h = refl
run-latched e (k ∷ ks) h =
    run-latched (call e k) ks (ground arith) ∙ call-direction e k (ground arith)

-- The last edge is known, not after t, and less than the timeout before it.
abbrev pub IsPulsing : EncoderState → ℕ → Type 0
IsPulsing e t =
    (last : ℕ) × (e.last_edge_ns ≡ some last) × (last ≤ t) × (t < last + e.stationary_timeout_ns)

is_at_rest_exact :
    (timeout : ℕ) (l : Option ℕ) (t : ℕ)
    → (is_at_rest timeout (if is_reversed l t then none else l) t ≡ false)
      ↔ ((last : ℕ) × (l ≡ some last) × (last ≤ t) × (t < last + timeout))
is_at_rest_exact timeout none t = ((λ p. absurd (cc)), (λ (last, p, a, b). absurd (cc)))
is_at_rest_exact timeout (some last) t =
    ((λ p. (last, refl, ground arith, ground arith)), (λ (other, p, a, b). ground arith))

measure-stationary :
    (e : EncoderState) (l : Option ℕ) (t : ℕ)
    → (measure e l t).stationary ≡ is_at_rest e.stationary_timeout_ns l t
measure-stationary e l t =
    if_both (λ (m : EncoderState). m.stationary ≡ is_at_rest e.stationary_timeout_ns l t)
      (is_at_rest e.stationary_timeout_ns l t) (λ p. sym p) (λ p. sym p)

measure-IsPulsing :
    (e : EncoderState) (t : ℕ) → ((after_measurement e t).stationary ≡ false) ↔ IsPulsing e t
unfolding after_measurement
measure-IsPulsing e t =
    rw (measure-stationary e (if is_reversed e.last_edge_ns t then none else e.last_edge_ns) t)
      (is_at_rest_exact e.stationary_timeout_ns e.last_edge_ns t)

-- A measurement says that the wheel moves exactly if the last edge is known, not ahead of the clock,
-- and less than the timeout ago; when it says that the wheel rests, the rate is zero.
take_measurement_exact :
    (F : Type 0) ⦃fl : Float F⦄ (e : EncoderState) (t : ℕ)
    → let (e', m) = take_measurement {F = F} e t in
      ((m.stationary ≡ false) ↔ IsPulsing e t) × ((m.edge_rate ≡ zero_f) ⊎ IsPulsing e t)
unfolding take_measurement
take_measurement_exact F e t =
    let (forth, back) = measure-IsPulsing e t in
    (
      (forth, back),
      elim (Bool-cases (after_measurement e t).stationary) [
        | inl rests ↦ inl (rw rests refl)
        | inr moves ↦ inr (forth moves)
      ],
    )
