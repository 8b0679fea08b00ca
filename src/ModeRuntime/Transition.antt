-- ===== src/ModeRuntime/Transition.antt =====
-- The answers of `transition` of src/runner_paddock/runner_paddock/mode_runtime.py.
use ros_pre_runner.Prelude.{
  ℕ, ◌+◌, ◌≡◌, refl, ap, sym, ◌∙◌, ◌⊎◌, inl, String, str_eq, Bool, true, false, not, ◌&&◌, Option,
  none, some, leb, if◌then◌else◌, arith, if_both,
}
use mathlib.Core.Path.{subst}
use ros_pre_runner.StateMachine.{Mode, idle, mapping, autonomy, mode_eq}
use ros_pre_runner.ModeRuntime.State.{stable, RuntimeState}
use ros_pre_runner.ModeRuntime.View.{Outcome, ok, raised}
use ros_pre_runner.ModeRuntime.Run.{begin_quiescence, Runtime, M, perform, get_state, ◌>>◌}
use ros_pre_runner.ModeRuntime.Triple.{Post, Triple, then-Triple}
use ros_pre_runner.ModeRuntime.Change.{
  Operation, is_new_map, is_stable, Surroundings, acknowledge, is_mapping_session, same_selection,
  accepted_transition, transition,
}
use ros_pre_runner.ModeRuntime.Order.{IsOrdered}
use ros_pre_runner.ModeRuntime.Steps.{At}
use ros_pre_runner.ModeRuntime.Settle.{IsSettled, IsAnswer, restart_as-IsAnswer}
use ros_pre_runner.ModeRuntime.Answer.{
  begun, Begins, Escapes, begin_transition-At, widened, renew_map-IsAnswer,
}

-- The last accepted request after one is made: an unknown mode or an old number changes nothing.
abbrev pub request_after : Option Mode → ℕ → RuntimeState → ℕ
request_after none request_id s = s.accepted_request_id
request_after (some m) request_id s =
    if leb request_id s.accepted_request_id then s.accepted_request_id else request_id

is_mapping-mapping : (m : Mode) → mode_eq m mapping ≡ true → m ≡ mapping
is_mapping-mapping idle h = absurd (cc)
is_mapping-mapping mapping h = refl
is_mapping-mapping autonomy h = absurd (cc)

-- An exception escapes only from a request with a new number.
abbrev pub EscapesNew : Surroundings → RuntimeState → ℕ → String → Runtime → Type 0
EscapesNew w s n e r = Escapes w (begun s n) e r × (leb n s.accepted_request_id ≡ false)

module _ (K : RuntimeState → Type 0) where
  -- An answer `t` to a request made in `s`, with `n` as the last accepted request.
  abbrev pub Responds : RuntimeState → ℕ → RuntimeState → Runtime → Type 0
  Responds s n t r =
      IsOrdered r.actions
      × (t ≡ r.state)
      × K t
      × (t.accepted_request_id ≡ n)
      × ((t.runtime_epoch ≡ s.runtime_epoch)
          ⊎ ((t.lifecycle ≡ stable) × (t.runtime_epoch ≡ s.runtime_epoch + 1)))

  module _ (settled : (t : RuntimeState) → IsSettled t → K t)
      (renumbered : (t : RuntimeState) (n : ℕ) → K t → K (record t { accepted_request_id = n }))
      (reworded : (t : RuntimeState) (detail : String) → K t → K (record t { detail = detail }))
      (w : Surroundings) (s : RuntimeState) (n : ℕ) (k : K s) where
    from_answer :
        (m : M RuntimeState)
        → Triple (At (begun s n) 0) m (IsAnswer (begun s n)) (Escapes w (begun s n))
        → Triple (At (begun s n) 0) m (Responds s n) (Escapes w (begun s n))
    unfolding Triple
    from_answer m t r p = convert (m r) (t r p)
      where
        convert :
            (o : Outcome RuntimeState × Runtime)
            → Post (IsAnswer (begun s n)) (Escapes w (begun s n)) o
            → Post (Responds s n) (Escapes w (begun s n)) o
        convert (ok a, r') (q, e, b, c, d) = (q, e, settled a b, c, d)
        convert (raised e, r') q = q

    acknowledge-Responds :
        (f : RuntimeState → RuntimeState)
        → K (f s)
        → (f s).runtime_epoch ≡ s.runtime_epoch
        → Triple (Begins s) (acknowledge n f) (Responds s n) (Escapes w (begun s n))
    unfolding Triple ◌>>◌
    acknowledge-Responds f kf e r (q, h) = (
      q,
      refl,
      subst (λ t. K (record (f t) { accepted_request_id = n })) (sym h) (renumbered (f s) n kf),
      refl,
      inl (ap (λ t. (f t).runtime_epoch) h ∙ e),
    )

    quiescence-Begins :
        Triple (Begins s) (perform begin_quiescence) (λ _. Begins s) (Escapes w (begun s n))
    unfolding Triple
    quiescence-Begins r p = p

    pub accepted_transition-Responds :
        (requested : Mode) (map : String) (operation : Operation)
        → Triple
            (Begins s)
            (accepted_transition w requested n map operation s)
            (Responds s n)
            (Escapes w (begun s n))
    unfolding accepted_transition
    accepted_transition-Responds requested map operation =
        let P : M RuntimeState → Type 0 =
          λ m. Triple (Begins s) m (Responds s n) (Escapes w (begun s n)) in
        let fresh = is_new_map operation && mode_eq requested mapping in
        if_both P (mode_eq requested autonomy && str_eq map "")
          (λ _.
            acknowledge-Responds (λ t. record t { detail = "AUTONOMY needs a selected map" })
              (reworded s _ k) refl)
          (λ _.
            if_both P (fresh && not (is_mapping_session s))
              (λ _.
                acknowledge-Responds
                  (λ t. record t {
                    detail = "NEW MAP rejected: requires an active stable MAPPING session";
                  })
                  (reworded s _ k) refl)
              (λ a.
                if_both P fresh
                  (λ b.
                    then-Triple _ (λ _. Begins s) _ _ _ _ quiescence-Begins
                      (λ _.
                        then-Triple _ (λ _. At (begun s n) 0) _ _ _ _ (begin_transition-At s n _ _)
                          (λ _. from_answer _ (renew_map-IsAnswer w s n map (maps fresh a b)))))
                  (λ _.
                    if_both P
                      (is_stable s.lifecycle
                        && (mode_eq requested s.mode && same_selection requested map s))
                      (λ _. acknowledge-Responds (λ t. t) k refl)
                      (λ _.
                        then-Triple _ (λ _. At (begun s n) 0) _ _ _ _ (begin_transition-At s n _ _)
                          (λ _. from_answer _ (
                            widened w s n _ (begun s n)
                              (restart_as-IsAnswer (begun s n) w requested map)))))))
      where
        maps : (b : Bool) → (b && not (is_mapping_session s)) ≡ false → b ≡ true → s.mode ≡ mapping
        maps b h e = is_mapping-mapping s.mode (ground arith)

    new-EscapesNew :
        (o : Outcome RuntimeState × Runtime)
        → leb n s.accepted_request_id ≡ false
        → Post (Responds s n) (Escapes w (begun s n)) o
        → Post (Responds s n) (EscapesNew w s n) o
    new-EscapesNew (ok a, r) h p = p
    new-EscapesNew (raised e, r) h p = (p, h)

    get_state-Responds :
        Triple (Begins s) get_state (Responds s s.accepted_request_id) (EscapesNew w s n)
    unfolding Triple
    get_state-Responds r (q, h) = (
      q,
      refl,
      subst K (sym h) k,
      ap (λ t. t.accepted_request_id) h,
      inl (ap (λ t. t.runtime_epoch) h),
    )

    pub transition-Responds :
        (requested : Option Mode) (map : String) (operation : Operation)
        → Triple
            (Begins s)
            (transition w requested n map operation)
            (Responds s (request_after requested n s))
            (EscapesNew w s n)
    unfolding Triple transition
    transition-Responds none map operation r p = get_state-Responds r p
    transition-Responds (some requested) map operation r p =
        subst
          (λ t. Post (Responds s (request_after (some requested) n s)) (EscapesNew w s n) (
            (if leb n t.accepted_request_id
                then get_state
                else accepted_transition w requested n map operation t)
              r))
          (sym p.1) (by_number (leb n s.accepted_request_id) refl)
      where
        by_number :
            (b : Bool)
            → leb n s.accepted_request_id ≡ b
            → Post
                (Responds s (if b then s.accepted_request_id else n))
                (EscapesNew w s n)
                ((if b then get_state else accepted_transition w requested n map operation s) r)
        by_number true h = get_state-Responds r p
        by_number false h =
            new-EscapesNew _ h (accepted_transition-Responds requested map operation r p)
