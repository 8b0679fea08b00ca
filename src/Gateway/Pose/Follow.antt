-- ===== src/Gateway/Pose/Follow.antt =====
-- The methods of the initial pose transaction of src/runner_paddock/runner_paddock/ros_state_node.py follow the
-- protocol.
use mathlib.Core.Path.{subst}
use mathlib.Core.List.{append_assoc}
use ros_pre_runner.Prelude.{
  ℕ, ◌==◌, String, str_eq, ltb, true, false, not, ◌&&◌, ◌||◌, Option, none, some, List, [], ◌∷◌,
  ◌++◌, ◌≡◌, refl, sym, ◌∙◌, if_both, arith, ap,
}
use ros_pre_runner.Prelude.Float.{Float}
use ros_pre_runner.Gateway.Pose.State.{
  Snapshot, Observed, Phase, waiting_stop, awaiting_pose, Costmap, global, local, Pending, stopping,
  PoseAction, shown, PoseNode, Geometry, safety_rejection, context_changed, unsafe_reason,
}
use ros_pre_runner.Gateway.Pose.Steps.{Moved, phase_eq, is_current, fail, publish_pose, advance}
use ros_pre_runner.Gateway.Pose.Clear.{is_left, replied, complete, finish_clear}
use ros_pre_runner.Gateway.Pose.Turn.{PoseCall}
use ros_pre_runner.Gateway.Pose.Protocol.{
  Stage, clears, IsSame, stage_in, stage_with, stage, status_in, seen, Hears, g_after, l_after,
  errors_after, left, Moves, Steps, fails, lingers, publishes, hears, applies, rests, moves,
}
use ros_pre_runner.Gateway.Pose.Evidence.{true_of_not, unsafe_reason-IsSame, unsafe_reason-empty}

pub same_phase : (a b : Phase) → phase_eq a b ≡ true → a ≡ b
same_phase waiting_stop waiting_stop h = refl
same_phase waiting_stop awaiting_pose h = absurd (cc)
same_phase waiting_stop Phase.clearing h = absurd (cc)
same_phase awaiting_pose waiting_stop h = absurd (cc)
same_phase awaiting_pose awaiting_pose h = refl
same_phase awaiting_pose Phase.clearing h = absurd (cc)
same_phase Phase.clearing waiting_stop h = absurd (cc)
same_phase Phase.clearing awaiting_pose h = absurd (cc)
same_phase Phase.clearing Phase.clearing h = refl

module _ {F : Type 0} where
  abbrev pub node : ℕ → Option (Pending F) → PoseNode F
  node k o = record { pending = o; request_id = k }

  status_in-stage_in : (ph : Phase) (p : Pending F) → status_in (stage_in ph p) ≡ some p.status
  unfolding stage_in
  status_in-stage_in waiting_stop p = refl
  status_in-stage_in awaiting_pose p = refl
  status_in-stage_in Phase.clearing p = refl

  replied-phase :
      (p : Pending F) (costmap : Costmap) (error : Option String)
      → (replied p costmap error).phase ≡ p.phase
  replied-phase p global none = refl
  replied-phase p global (some error) = refl
  replied-phase p local none = refl
  replied-phase p local (some error) = refl

  replied-stage_in :
      (p : Pending F) (costmap : Costmap) (error : Option String)
      → stage_in Phase.clearing (replied p costmap error)
        ≡ clears p.request_id p.status p.intent
            (g_after costmap p.global_left)
            (l_after costmap p.local_left)
            (errors_after p.clear_errors error)
            p.observed
  unfolding stage_in
  replied-stage_in p global none = refl
  replied-stage_in p global (some error) = refl
  replied-stage_in p local none = refl
  replied-stage_in p local (some error) = refl

module _ {F : Type 0} ⦃fl : Float F⦄ (geo : Geometry F) (c : PoseCall F) where
  pub one : (v w : Stage F) (a : PoseAction F) → Moves geo c v (a ∷ []) w → Steps geo c v (a ∷ []) w
  one v w a m = moves v w w (a ∷ []) [] m (rests w)

  pub Steps-trans :
      (v w u : Stage F) (a b : List (PoseAction F))
      → Steps geo c v a w
      → Steps geo c w b u
      → Steps geo c v (a ++ b) u
  Steps-trans v w u a b (rests _) s = s
  Steps-trans v w u a b (moves _ x _ a' b' m t) s =
      subst (λ d. Steps geo c v d u) (sym (append_assoc a' b' b))
        (moves v x u a' (b' ++ b) m (Steps-trans x w u b' b t s))

  abbrev pub Ends : Stage F → Moved F → Type 0
  Ends v m = Steps geo c v m.1 (stage m.0)

  pub from_phase :
      (ph : Phase) (p : Pending F) (a : List (PoseAction F)) (u : Stage F)
      → phase_eq p.phase ph ≡ true
      → Steps geo c (stage_in ph p) a u
      → Steps geo c (stage_in p.phase p) a u
  from_phase ph p a u e =
      subst (λ q. Steps geo c (stage_in q p) a u) (sym (same_phase p.phase ph e))

  pub fail-Ends :
      (k : ℕ) (p : Pending F) (detail : String) (observed : Option (Observed F))
      → Ends (stage_in p.phase p) (fail (node k (some p)) p detail observed)
  unfolding fail stage_with
  fail-Ends k p detail observed =
      if_both (Ends (stage_in p.phase p)) (p.request_id == p.request_id)
        (λ _. one _ _ _ (fails _ p.status detail observed (status_in-stage_in p.phase p)))
        (λ _. rests _)

  publish_pose-Ends :
      (k : ℕ) (p : Pending F) (s : Snapshot) (now : F)
      → seen c ≡ some s
      → IsSame p.status s
      → Ends (stage_in p.phase p) (publish_pose geo (node k (some p)) p now)
  unfolding publish_pose stage_with stage_in
  publish_pose-Ends k p s now e h =
      if_both (Ends (stage_in p.phase p)) (not (is_current (some p) p.request_id waiting_stop))
        (λ _. rests _)
        (λ d.
          from_phase waiting_stop p _ _ (ground arith)
            (moves _ _ _ _ _ (publishes p.request_id s p.status p.intent _ e h) (rests _)))

  pub advance-Ends :
      (k : ℕ) (p : Pending F) (s : Snapshot) (subscribers : ℕ) (now : F)
      → seen c ≡ some s
      → Ends (stage_in p.phase p) (advance geo (node k (some p)) s subscribers now)
  unfolding advance stage_with stage_in
  advance-Ends k p s subscribers now e =
      let P : Moved F → Type 0 = Ends (stage_in p.phase p) in
      if_both P (not (phase_eq p.phase waiting_stop)) (λ _. rests _)
        (λ a.
          if_both P (not (str_eq (context_changed p.status s) "")) (λ _. fail-Ends k p _ _)
            (λ b.
              if_both P (not (str_eq (safety_rejection s) ""))
                (λ _.
                  subst
                    (λ ph.
                      Steps geo c (stage_in ph p)
                        (shown p.status stopping (safety_rejection s) none ∷ []) (stage_in ph p))
                    (sym (
                      same_phase p.phase waiting_stop
                        (true_of_not (phase_eq p.phase waiting_stop) a)))
                    (one _ _ _ (lingers p.request_id p.status p.intent (safety_rejection s))))
                (λ d.
                  if_both P (ltb subscribers 1) (λ _. fail-Ends k p _ _)
                    (λ _. publish_pose-Ends k p s now e (
                      unsafe_reason-IsSame p.status s
                        (true_of_not (str_eq (context_changed p.status s) "") b)
                        (true_of_not (str_eq (safety_rejection s) "") d))))))

  complete-Ends :
      (k : ℕ) (p : Pending F) (errors : List String) (s : Snapshot)
      → phase_eq p.phase Phase.clearing ≡ true
      → (p.global_left || p.local_left) ≡ false
      → seen c ≡ some s
      → Ends (stage_in p.phase (record p { clear_errors = errors })) (
          complete
            (node k (some (record p { clear_errors = errors })))
            (record p { clear_errors = errors })
            s)
  unfolding complete stage_with stage_in
  complete-Ends k p (error ∷ errors) s ph d e =
      fail-Ends k (record p { clear_errors = error ∷ errors }) _ _
  complete-Ends k p [] s ph d e =
      let q : Pending F = record p { clear_errors = [] } in
      if_both (Ends (stage_in p.phase q)) (not (str_eq (unsafe_reason p.status s) ""))
        (λ _. fail-Ends k q _ _)
        (λ h. from_phase Phase.clearing q _ _ ph (
          one _ _ _ (
            applies p.request_id s p.status p.intent p.global_left p.local_left [] _ p.observed
              (ground arith) (ground arith) refl e
              (unsafe_reason-empty p.status s
                (true_of_not (str_eq (unsafe_reason p.status s) "") h)))))

  is_left-left :
      (p : Pending F) (costmap : Costmap)
      → is_left p costmap ≡ left costmap p.global_left p.local_left
  is_left-left p global = refl
  is_left-left p local = refl

  -- A reply brings the pending transaction to the one with the reply.
  answered-Steps :
      (p : Pending F) (costmap : Costmap) (error : Option String) (a : List (PoseAction F))
      (u : Stage F)
      → phase_eq p.phase Phase.clearing ≡ true
      → is_left p costmap ≡ true
      → Hears c p.request_id costmap error
      → Steps geo c (stage_in (replied p costmap error).phase (replied p costmap error)) a u
      → Steps geo c (stage_in p.phase p) a u
  unfolding stage_in
  answered-Steps p costmap error a u ph l h rest =
      let q : Pending F = replied p costmap error in
      let e : stage_in q.phase q ≡ stage_in Phase.clearing q =
        ap (λ r. stage_in r q)
          (replied-phase p costmap error ∙ same_phase p.phase Phase.clearing ph) in
      from_phase Phase.clearing p a u ph (
        moves _ _ u [] a
          (hears p.request_id p.status p.intent p.global_left p.local_left p.clear_errors p.observed
            costmap error h (sym (is_left-left p costmap) ∙ l))
          (subst (λ v. Steps geo c v a u) (e ∙ replied-stage_in p costmap error) rest))

  pub finish_clear-Ends :
      (k : ℕ) (o : Option (Pending F)) (id : ℕ) (costmap : Costmap) (error : Option String)
      (s : Snapshot)
      → seen c ≡ some s
      → Hears c id costmap error
      → Ends (stage_with o) (finish_clear (node k o) id costmap error s)
  unfolding finish_clear stage_with
  finish_clear-Ends k none id costmap error s e h = rests _
  finish_clear-Ends k (some p) id costmap error s e h =
      if_both (Ends (stage_in p.phase p))
        (not (is_current (some p) id Phase.clearing && is_left p costmap)) (λ _. rests _)
        (λ d.
          let q : Pending F = replied p costmap error in
          let ph : phase_eq p.phase Phase.clearing ≡ true = ground arith in
          let ph' : phase_eq q.phase Phase.clearing ≡ true =
            ap (λ r. phase_eq r Phase.clearing) (replied-phase p costmap error) ∙ ph in
          let l : is_left p costmap ≡ true = ground arith in
          let i : id ≡ p.request_id = ground arith in
          let h' : Hears c p.request_id costmap error = subst (λ j. Hears c j costmap error) i h in
          if_both (Ends (stage_in p.phase p)) (q.global_left || q.local_left)
            (λ _. answered-Steps p costmap error [] _ ph l h' (rests _))
            (λ g.
              answered-Steps p costmap error _ _ ph l h'
                (complete-Ends k q q.clear_errors s ph' g e)))
