-- ===== src/Gateway/Pose/Course.antt =====
-- Every call of the initial pose transaction of src/runner_paddock/runner_paddock/ros_state_node.py, and every
-- sequence of calls, follows the protocol.
use mathlib.Core.Path.{subst}
use ros_pre_runner.Prelude.{
  if◌then◌else◌, ℕ, ◌+◌, ltb, String, str_eq, true, not, ◌&&◌, ◌||◌, Option, none, some, List, [],
  ◌∷◌, ◌≡◌, refl, sym, if_both, arith,
}
use ros_pre_runner.Prelude.Float.{Float}
use ros_pre_runner.Gateway.State.{Role, GatewayResult}
use ros_pre_runner.ModeRuntime.Text.{◌<>◌}
use ros_pre_runner.Gateway.Pose.State.{
  Snapshot, PoseIntent, PlanarPose, Observed, Phase, awaiting_pose, Costmap, global, local, Pending,
  asked, PoseAction, PoseNode, Geometry, rejection, unsafe_reason,
}
use ros_pre_runner.Gateway.Pose.Steps.{
  Moved, phase_eq, is_current, expire, set_initial_pose, advance,
}
use ros_pre_runner.Gateway.Pose.Clear.{
  reply_error, Clients, costmap_name, replied, finish_clear, ask_clear, start_clear, confirm,
  agrees,
}
use ros_pre_runner.Gateway.Pose.Turn.{
  PoseCall, requests, expires, advances, confirms, replies, pose_call, pose_calls,
}
use ros_pre_runner.Gateway.Pose.Protocol.{
  Stage, idle, IsReady, IsSame, stage_in, stage_with, stage, seen, transform_of, Hears, Steps,
  Course, refuses, accepts, recognizes, asks, rests, moves, over, goes_on,
}
use ros_pre_runner.Gateway.Pose.Evidence.{
  true_of_not, unless, rejection-IsReady, unsafe_reason-empty,
}
use ros_pre_runner.Gateway.Pose.Follow.{
  same_phase, node, one, Steps-trans, Ends, from_phase, fail-Ends, advance-Ends, finish_clear-Ends,
}

-- The reason against a request
abbrev pose_reason : Snapshot → ℕ → String
pose_reason s subscribers =
    if str_eq (rejection s) "" && ltb subscribers 1
    then "slam_toolbox /initialpose subscriber unavailable"
    else rejection s

pose_reason-IsReady :
    (s : Snapshot) (subscribers : ℕ) → str_eq (pose_reason s subscribers) "" ≡ true → IsReady s
pose_reason-IsReady s subscribers =
    unless (IsReady s) (str_eq (rejection s) "" && ltb subscribers 1) _ _ refl
      (λ _. rejection-IsReady s)

module _ {F : Type 0} ⦃fl : Float F⦄ (geo : Geometry F) (c : PoseCall F) where
  asks-Steps :
      (p : Pending F) (costmap : Costmap) (a : List (PoseAction F)) (u : Stage F)
      → phase_eq p.phase Phase.clearing ≡ true
      → Steps geo c (stage_in p.phase p) a u
      → Steps geo c (stage_in p.phase p) (asked costmap ∷ a) u
  unfolding stage_in
  asks-Steps p costmap a u ph rest = from_phase geo c Phase.clearing p _ _ ph (
      moves _ _ u (asked costmap ∷ []) a
        (asks p.request_id p.status p.intent p.global_left p.local_left p.clear_errors p.observed
          costmap)
        (subst (λ q. Steps geo c (stage_in q p) a u) (same_phase p.phase Phase.clearing ph) rest))

  ask_clear-Ends :
      (k : ℕ) (p : Pending F) (id : ℕ) (costmap : Costmap) (error : Option String) (s : Snapshot)
      → phase_eq p.phase Phase.clearing ≡ true
      → seen c ≡ some s
      → ((e : String) → Hears c id costmap (some e))
      → Ends geo c (stage_in p.phase p) (ask_clear (node k (some p)) id costmap error s)
  unfolding ask_clear stage_with
  ask_clear-Ends k p id costmap none s ph e h = asks-Steps p costmap [] _ ph (rests _)
  ask_clear-Ends k p id costmap (some t) s ph e h = asks-Steps p costmap _ _ ph (
      finish_clear-Ends geo c k (some p) id costmap _ s e
        (h (costmap_name costmap <> " clear failed to start: " <> t)))

  -- The first of both calls leaves the transaction in its phase, as the other costmap is left.
  ask_clear-global :
      (k : ℕ) (p : Pending F) (error : Option String) (s : Snapshot)
      → phase_eq p.phase Phase.clearing ≡ true
      → p.local_left ≡ true
      → p.global_left ≡ true
      → (q : Pending F) × ((ask_clear (node k (some p)) p.request_id global error s).0
          ≡ node k (some q))
        × (phase_eq q.phase Phase.clearing ≡ true)
  unfolding ask_clear finish_clear
  ask_clear-global k p none s ph l g = (p, refl, ph)
  ask_clear-global k p (some t) s ph l g =
      let q : Pending F =
        replied p global (some (costmap_name global <> " clear failed to start: " <> t)) in
      (
        q,
        if_both (λ (m : Moved F). m.0 ≡ node k (some q))
            (not (is_current (some p) p.request_id Phase.clearing && p.global_left))
            (λ a. absurd (ground arith))
            (λ a.
              if_both (λ (m : Moved F). m.0 ≡ node k (some q)) (q.global_left || q.local_left)
                (λ _. refl) (λ b. absurd (ground arith))),
        ph,
      )

  -- Both calls, one after the other
  start_clear-Ends :
      (k : ℕ) (p : Pending F) (observed : Observed F) (robot : PlanarPose F) (clients : Clients)
      (s : Snapshot) (now : F)
      → seen c ≡ some s
      → IsSame p.status s
      → transform_of c ≡ some (observed, robot)
      → agrees geo p.intent robot ≡ true
      → ((id : ℕ) (costmap : Costmap) (e : String) → Hears c id costmap (some e))
      → Ends geo c (stage_in p.phase p) (start_clear (node k (some p)) p observed clients s now)
  unfolding start_clear stage_with stage_in
  start_clear-Ends k p observed robot clients s now e same tf ok h =
      let P : Moved F → Type 0 = Ends geo c (stage_in p.phase p) in
      if_both P (not (clients.global_ready && clients.local_ready)) (λ _. fail-Ends geo c k p _ _)
        (λ _.
          if_both P (not (is_current (some p) p.request_id awaiting_pose)) (λ _. rests _)
            (λ d.
              let q : Pending F = record p {
                phase = Phase.clearing;
                deadline = fl.add now (fl.lit 2 1);
                global_left = true;
                local_left = true;
                clear_errors = [];
                observed = some observed;
              } in
              let first : Moved F =
                ask_clear (node k (some q)) p.request_id global clients.global_error s in
              let second : PoseNode F → Moved F =
                λ n. ask_clear n p.request_id local clients.local_error s in
              let g = ask_clear-global k q clients.global_error s refl refl refl in
              from_phase geo c awaiting_pose p _ _ (ground arith) (
                moves _ _ _ _ _
                  (recognizes p.request_id s p.status p.intent _ observed robot e same tf ok)
                  (Steps-trans geo c _ _ _ first.1 (second first.0).1
                    (ask_clear-Ends k q p.request_id global clients.global_error s refl e
                      (h p.request_id global))
                    (subst (λ n. Ends geo c (stage n) (second n)) (sym g.1)
                      (ask_clear-Ends k g.0 p.request_id local clients.local_error s g.2 e
                        (h p.request_id local)))))))

  confirm-Ends :
      (k : ℕ) (p : Pending F) (observed : Observed F) (robot : PlanarPose F) (clients : Clients)
      (s : Snapshot) (now : F)
      → seen c ≡ some s
      → transform_of c ≡ some (observed, robot)
      → ((id : ℕ) (costmap : Costmap) (e : String) → Hears c id costmap (some e))
      → Ends geo c (stage_in p.phase p) (confirm geo (node k (some p)) observed robot clients s now)
  unfolding confirm stage_in stage_with
  confirm-Ends k p observed robot clients s now e tf h =
      let P : Moved F → Type 0 = Ends geo c (stage_in p.phase p) in
      if_both P (not (phase_eq p.phase awaiting_pose) || not (agrees geo p.intent robot))
        (λ _. rests _)
        (λ a.
          if_both P (not (str_eq (unsafe_reason p.status s) "")) (λ _. fail-Ends geo c k p _ _)
            (λ b.
              start_clear-Ends k p observed robot clients s now e
                (unsafe_reason-empty p.status s
                  (true_of_not (str_eq (unsafe_reason p.status s) "") b))
                tf (ground arith) h))

  expire-Ends :
      (k : ℕ) (p : Pending F) (now : F)
      → Ends geo c (stage_in p.phase p) (expire (node k (some p)) now)
  unfolding expire stage_in stage_with
  expire-Ends k p now =
      if_both (Ends geo c (stage_in p.phase p)) (fl.lt now p.deadline) (λ _. rests _)
        (λ _. fail-Ends geo c k p _ _)

  set_initial_pose-Ends :
      (k : ℕ) (o : Option (Pending F)) (intent : PoseIntent F) (role : Role) (s : Snapshot)
      (subscribers : ℕ) (now : F)
      → seen c ≡ some s
      → Ends geo c (stage_with o) (set_initial_pose (node k o) intent role s subscribers now).0
  unfolding set_initial_pose stage_with stage_in
  set_initial_pose-Ends k none intent role s subscribers now e =
      if_both (λ (m : Moved F × GatewayResult F). Ends geo c idle m.0)
        (not (str_eq (pose_reason s subscribers) ""))
        (λ _. one geo c _ _ _ (refuses _ s intent _ e))
        (λ h. one geo c _ _ _ (
          accepts (k + 1) s intent _ e (
            pose_reason-IsReady s subscribers
              (true_of_not (str_eq (pose_reason s subscribers) "") h))))
  set_initial_pose-Ends k (some p) intent role s subscribers now e =
      if_both (λ (m : Moved F × GatewayResult F). Ends geo c (stage_in p.phase p) m.0)
        (not (str_eq (pose_reason s subscribers) ""))
        (λ _. one geo c _ _ _ (refuses _ s intent _ e)) (λ _. rests _)

module _ {F : Type 0} ⦃fl : Float F⦄ (geo : Geometry F) where
  confirms-Hears :
      (observed : Observed F) (robot : PlanarPose F) (clients : Clients) (s : Snapshot) (now : F)
      (id : ℕ) (costmap : Costmap) (e : String)
      → Hears (confirms observed robot clients s now) id costmap (some e)
  confirms-Hears observed robot clients s now id costmap e = refl

  pub pose_call-Steps :
      (k : ℕ) (o : Option (Pending F)) (c : PoseCall F)
      → Ends geo c (stage_with o) (pose_call geo (node k o) c)
  unfolding pose_call stage_with expire advance confirm
  pose_call-Steps k o (requests intent role s subscribers now) =
      set_initial_pose-Ends geo _ k o intent role s subscribers now refl
  pose_call-Steps k none (expires now) = rests _
  pose_call-Steps k (some p) (expires now) = expire-Ends geo _ k p now
  pose_call-Steps k none (advances s subscribers now) = rests _
  pose_call-Steps k (some p) (advances s subscribers now) =
      advance-Ends geo _ k p s subscribers now refl
  pose_call-Steps k none (confirms observed robot clients s now) = rests _
  pose_call-Steps k (some p) (confirms observed robot clients s now) =
      confirm-Ends geo _ k p observed robot clients s now refl refl
        (confirms-Hears observed robot clients s now)
  pose_call-Steps k o (replies id costmap exception s) =
      finish_clear-Ends geo _ k o id costmap (reply_error costmap exception) s refl
        (refl, refl, refl)

  -- Whatever calls the initial pose transaction gets, in whatever order and with whatever snapshots, transforms,
  -- replies and clocks, the node follows the protocol `Course` from the stage it is in: it publishes the requested
  -- pose only while it waits and sees an applied STOP, a stationary robot and the map and runtime epoch of the
  -- request, all fresh; it recognizes the pose only from a transform within both tolerances, with the same
  -- evidence; it takes a reply for a costmap only once and only under the request's number; and it shows the pose as
  -- applied only with the same evidence again, once both costmaps have answered without an error.
  pub pose_calls-Course :
      (n : PoseNode F) (cs : List (PoseCall F))
      → Course geo cs (stage n) (pose_calls geo n cs).1 (stage (pose_calls geo n cs).0)
  unfolding pose_calls
  pose_calls-Course n [] = over _
  pose_calls-Course n (c ∷ cs) =
      goes_on c cs _ _ _ _ _ (pose_call-Steps n.request_id n.pending c)
        (pose_calls-Course (pose_call geo n c).0 cs)
