-- ===== src/ModeRuntime/Refreshed.antt =====
-- `refresh` of src/runner_paddock/runner_paddock/mode_runtime.py against an independent description.
use ros_pre_runner.Prelude.{
  ◌≡◌, ◌≢◌, refl, ap, sym, ◌∙◌, ◌⊎◌, inl, inr, String, str_eq, eq_iff, Bool, true, false, not, ◌||◌,
  ◌∷◌, if◌then◌else◌, arith,
}
use ros_pre_runner.StateMachine.{idle, mode_eq}
use ros_pre_runner.ModeRuntime.State.{RuntimeState}
use ros_pre_runner.ModeRuntime.View.{Outcome, ok, raised, View, fully_ready}
use ros_pre_runner.ModeRuntime.Run.{published, Runtime, from, get_state, ◌>>◌, ◌>>=◌}
use ros_pre_runner.ModeRuntime.Triple.{Post}
use ros_pre_runner.ModeRuntime.Change.{is_stable, same, differs, set_when, unready_when, refresh}

-- The snapshot with the readiness that a look shows, if the look succeeds.
abbrev pub readiness_of : View → RuntimeState → Outcome RuntimeState
readiness_of v s =
    if not (is_stable s.lifecycle)
    then ok (record s { ready = false })
    else if mode_eq s.mode idle
    then ok (record s { ready = true; readiness_reason = "" })
    else elim (fully_ready v s.mode) [
      | ok p ↦ ok (record s { ready = p.0; readiness_reason = p.1 })
      | raised e ↦ raised e
    ]

-- `t` is returned and kept, and published when it is a new one.
abbrev pub Refreshes : Outcome RuntimeState → Runtime → RuntimeState → Runtime → Type 0
Refreshes o r t r' =
    (o ≡ ok t)
    × (t ≡ r'.state)
    × ((r' ≡ r) ⊎ ((r'.actions ≡ published t ∷ r.actions) × (t ≢ r.state)))

abbrev pub Unchanged : Outcome RuntimeState → Runtime → String → Runtime → Type 0
Unchanged o r e r' = (o ≡ raised e) × (r' ≡ r)

true_not_false : true ≢ false
true_not_false h = absurd (cc)

same-≡ : (a b : Bool) → same a b ≡ true → a ≡ b
same-≡ true b h = sym h
same-≡ false b h = ground arith

≡-same : (a b : Bool) → a ≡ b → same a b ≡ true
≡-same a b h = ground arith

neither : (a b : Bool) → (not a || not b) ≡ false → (a ≡ true) × (b ≡ true)
neither true true h = (refl, refl)
neither true false h = absurd (cc)
neither false b h = absurd (cc)

either : (a b : Bool) → a ≡ true → b ≡ true → (not a || not b) ≡ false
either true true g h = refl
either true false g h = absurd (cc)
either false b g h = absurd (cc)

both_same :
    (good : Bool) (reason : String) (s : RuntimeState)
    → differs s good reason ≡ false
    → (good ≡ s.ready) × (reason ≡ s.readiness_reason)
both_same good reason s h =
    let (p, q) = neither (same good s.ready) (str_eq reason s.readiness_reason) h in
    (same-≡ good s.ready p, (eq_iff reason s.readiness_reason).0 q)

not_both_same :
    (good : Bool) (reason : String) (s : RuntimeState)
    → differs s good reason ≡ true
    → record s { ready = good; readiness_reason = reason } ≢ s
not_both_same good reason s h e = true_not_false (
    sym h
    ∙ either (same good s.ready) (str_eq reason s.readiness_reason)
        (≡-same good s.ready (ap (λ t. t.ready) e))
        ((eq_iff reason s.readiness_reason).1 (ap (λ t. t.readiness_reason) e)))

module _ (r : Runtime) where
  unready-Refreshes :
      (b : Bool)
      → r.state.ready ≡ b
      → Post
          (Refreshes (ok (record r.state { ready = false })) r)
          (Unchanged (ok (record r.state { ready = false })) r)
          ((unready_when b >> get_state) r)
  unfolding ◌>>◌
  unready-Refreshes true e =
      (refl, refl, inr (refl, λ h. true_not_false (sym e ∙ sym (ap (λ t. t.ready) h))))
  unready-Refreshes false e =
      let same_state = ap (λ c. record r.state { ready = c }) (sym e) in
      (ap ok same_state, refl, inl refl)

  set_when-Refreshes :
      (b good : Bool) (reason : String)
      → (b ≡ false → (good ≡ r.state.ready) × (reason ≡ r.state.readiness_reason))
      → (b ≡ true → record r.state { ready = good; readiness_reason = reason } ≢ r.state)
      → let o : Outcome RuntimeState =
          ok (record r.state { ready = good; readiness_reason = reason }) in
        Post (Refreshes o r) (Unchanged o r) ((set_when b good reason >> get_state) r)
  unfolding ◌>>◌
  set_when-Refreshes true good reason f g = (refl, refl, inr (refl, g refl))
  set_when-Refreshes false good reason f g =
      let (p, q) = f refl in
      (ap ok ((λ i. record r.state { ready = p i; readiness_reason = q i })), refl, inl refl)

  -- The look is taken, and its answer kept.
  looked-Refreshes :
      (o : Outcome (Bool × String))
      → let t : Outcome RuntimeState = elim o [
        | ok p ↦ ok (record r.state { ready = p.0; readiness_reason = p.1 })
        | raised e ↦ raised e
      ] in
        Post
          (Refreshes t r)
          (Unchanged t r)
          ((from o >>= (λ p. set_when (differs r.state p.0 p.1) p.0 p.1 >> get_state)) r)
  unfolding ◌>>=◌
  looked-Refreshes (raised e) = (refl, refl)
  looked-Refreshes (ok p) =
      set_when-Refreshes (differs r.state p.0 p.1) p.0 p.1 (both_same p.0 p.1 r.state)
        (not_both_same p.0 p.1 r.state)

  resting-Refreshes :
      let o : Outcome RuntimeState = ok (record r.state { ready = true; readiness_reason = "" }) in
      Post (Refreshes o r) (Unchanged o r) (
        (set_when (not r.state.ready || not (str_eq r.state.readiness_reason "")) true ""
            >> get_state)
          r)
  resting-Refreshes =
      set_when-Refreshes _ true ""
        (λ h.
          let (p, q) = neither r.state.ready (str_eq r.state.readiness_reason "") h in
          (sym p, sym ((eq_iff r.state.readiness_reason "").0 q)))
        (λ h e. true_not_false (
          sym h
          ∙ either r.state.ready (str_eq r.state.readiness_reason "") (sym (ap (λ t. t.ready) e))
              ((eq_iff r.state.readiness_reason "").1 (sym (ap (λ t. t.readiness_reason) e)))))

  -- A refresh returns and keeps the snapshot with the readiness that is described independently: none
  -- unless the lifecycle is stable, always in IDLE, and else what the look at the runtime shows. It
  -- publishes that snapshot just when it is a new one. If the look raises, so does the refresh, and
  -- nothing has changed.
  pub refresh-readiness_of :
      (v : View)
      → Post
          (Refreshes (readiness_of v r.state) r)
          (Unchanged (readiness_of v r.state) r)
          (refresh v r)
  unfolding refresh
  refresh-readiness_of v = by_tests (not (is_stable r.state.lifecycle)) (mode_eq r.state.mode idle)
    where
      by_tests :
          (b c : Bool)
          → let o : Outcome RuntimeState =
              if b
              then ok (record r.state { ready = false })
              else if c
              then ok (record r.state { ready = true; readiness_reason = "" })
              else elim (fully_ready v r.state.mode) [
                | ok p ↦ ok (record r.state { ready = p.0; readiness_reason = p.1 })
                | raised e ↦ raised e
              ] in
            Post (Refreshes o r) (Unchanged o r) (
              (if b
                  then (do unready_when r.state.ready; get_state)
                  else if c
                  then (do
                    set_when (not r.state.ready || not (str_eq r.state.readiness_reason "")) true ""
                    get_state)
                  else (do
                    (good, reason) ← from (fully_ready v r.state.mode)
                    set_when (differs r.state good reason) good reason
                    get_state))
                r)
      by_tests true c = unready-Refreshes r.state.ready refl
      by_tests false true = resting-Refreshes
      by_tests false false = looked-Refreshes (fully_ready v r.state.mode)
