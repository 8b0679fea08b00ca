-- ===== src/Gateway/Pose/Expiry.antt =====
-- Turns of `_update_pose` of src/runner_paddock/runner_paddock/ros_state_node.py as calls, and past the deadline.
use mathlib.Core.Path.{subst}
use mathlib.Core.List.{append-nil, append_assoc}
use ros_pre_runner.Prelude.{
  String, Bool, ◌++◌, ◌∙◌, ℕ, ◌==◌, true, false, Option, none, some, List, [], ◌∷◌, ◌≡◌, refl, sym,
  ap, arith,
}
use ros_pre_runner.Prelude.Float.{Float}
use ros_pre_runner.Gateway.Pose.State.{
  PoseAction, Phase, waiting_stop, awaiting_pose, Snapshot, PlanarPose, Observed, Pending, rejected,
  shown, PoseNode, Geometry,
}
use ros_pre_runner.Gateway.Pose.Steps.{Moved, timed_out, fail, expire, advance}
use ros_pre_runner.Gateway.Pose.Clear.{Clients, confirm, finish_clear}
use ros_pre_runner.Gateway.Pose.Turn.{
  PoseEvent, requested, turned, answered, pose_call, pose_event, pose_events, Turn, confirm_if,
  update_pose, PoseCall, expires, advances, confirms, pose_calls,
}

-- What an operator is told: what the phase waited for did not come in time.
abbrev pub reason_at : Phase → String
reason_at waiting_stop = "timed out waiting for applied STOP and stationary"
reason_at awaiting_pose =
    "application unconfirmed: map-frame robot pose did not match the requested initial pose"
reason_at Phase.clearing = "timed out clearing dynamic costmaps"

reason_at-timed_out : (phase : Phase) → timed_out phase ≡ reason_at phase
reason_at-timed_out waiting_stop = refl
reason_at-timed_out awaiting_pose = refl
reason_at-timed_out Phase.clearing = refl

abbrev pub has_no_request : {F : Type 0} → List (PoseEvent F) → Bool
has_no_request [] = true
has_no_request (requested intent role s subscribers now ∷ es) = false
has_no_request (turned t ∷ es) = has_no_request es
has_no_request (answered id costmap exception s ∷ es) = has_no_request es

module _ {F : Type 0} ⦃fl : Float F⦄ (geo : Geometry F) where
  unfoldable pub confirm_calls :
      Option (Observed F × PlanarPose F) → Clients → Snapshot → F → List (PoseCall F)
  confirm_calls none clients s now = []
  confirm_calls (some (observed, robot)) clients s now = confirms observed robot clients s now ∷ []

  unfoldable pub turn_calls : Turn F → List (PoseCall F)
  unfolding confirm_calls
  turn_calls t =
      expires t.expired_at
      ∷ advances t.seen t.subscribers t.advanced_at
      ∷ confirm_calls t.transform t.clients t.seen_again t.confirmed_at

  confirm_if-pose_calls :
      (n : PoseNode F) (transform : Option (Observed F × PlanarPose F)) (clients : Clients)
      (s : Snapshot) (now : F)
      → confirm_if geo n transform clients s now
        ≡ pose_calls geo n (confirm_calls transform clients s now)
  unfolding confirm_if pose_calls confirm_calls
  confirm_if-pose_calls n none clients s now = refl
  confirm_if-pose_calls n (some (observed, robot)) clients s now =
      ap (λ b. ((confirm geo n observed robot clients s now).0, b)) (sym (append-nil _))

  -- A turn is its calls, one after the other.
  pub update_pose-pose_calls :
      (n : PoseNode F) (t : Turn F) → update_pose geo n t ≡ pose_calls geo n (turn_calls t)
  unfolding update_pose pose_calls turn_calls
  update_pose-pose_calls n t = rw (confirm_if-pose_calls, append_assoc) refl

  expire-fail :
      (k : ℕ) (p : Pending F) (now : F)
      → fl.lt now p.deadline ≡ false
      → expire (record { pending = some p; request_id = k }) now ≡ (
        record { pending = none; request_id = k },
        shown p.status rejected (timed_out p.phase) p.observed ∷ [],
      )
  unfolding expire fail
  expire-fail k p now h =
      let e : (p.request_id == p.request_id) ≡ true = ground arith in rw (h, e) refl

  confirm_if-none :
      (k : ℕ) (transform : Option (Observed F × PlanarPose F)) (clients : Clients) (s : Snapshot)
      (now : F)
      → confirm_if geo (record { pending = none; request_id = k }) transform clients s now
        ≡ (record { pending = none; request_id = k }, [])
  unfolding confirm_if confirm
  confirm_if-none k none clients s now = refl
  confirm_if-none k (some (observed, robot)) clients s now = refl

  update_pose-fail :
      (k : ℕ) (p : Pending F) (t : Turn F)
      → fl.lt t.expired_at p.deadline ≡ false
      → update_pose geo (record { pending = some p; request_id = k }) t ≡ (
        record { pending = none; request_id = k },
        shown p.status rejected (timed_out p.phase) p.observed ∷ [],
      )
  unfolding update_pose advance
  update_pose-fail k p t h = rw (expire-fail k p t.expired_at h, confirm_if-none) refl

  update_pose-none :
      (k : ℕ) (t : Turn F)
      → update_pose geo (record { pending = none; request_id = k }) t
        ≡ (record { pending = none; request_id = k }, [])
  unfolding update_pose expire advance
  update_pose-none k t = rw confirm_if-none refl

  pub pose_events-nil : (n : PoseNode F) → pose_events geo n [] ≡ (n, [])
  unfolding pose_events
  pose_events-nil n = refl

  pub pose_events-cons :
      (n m u : PoseNode F) (e : PoseEvent F) (es : List (PoseEvent F)) (a b : List (PoseAction F))
      → pose_event geo n e ≡ (m, a)
      → pose_events geo m es ≡ (u, b)
      → pose_events geo n (e ∷ es) ≡ (u, a ++ b)
  unfolding pose_events
  pose_events-cons n m u e es a b h k =
      subst
        (λ (d : Moved F).
          ◌≡◌ {A = Moved F} ((pose_events geo d.0 es).0, d.1 ++ (pose_events geo d.0 es).1)
            (u, a ++ b))
        (sym h) (ap (λ (d : Moved F). (d.0, a ++ d.1)) k)

  -- Without a pending transaction and a request nothing happens.
  pose_events-none :
      (k : ℕ) (es : List (PoseEvent F))
      → has_no_request es ≡ true
      → pose_events geo (record { pending = none; request_id = k }) es
        ≡ (record { pending = none; request_id = k }, [])
  unfolding pose_events pose_event pose_call finish_clear
  pose_events-none k [] h = refl
  pose_events-none k (requested intent role s subscribers now ∷ es) h = absurd (cc)
  pose_events-none k (turned t ∷ es) h =
      let n : PoseNode F = record { pending = none; request_id = k } in
      pose_events-cons n n n (turned t) es [] [] (update_pose-none k t) (pose_events-none k es h)
  pose_events-none k (answered id costmap exception s ∷ es) h =
      let n : PoseNode F = record { pending = none; request_id = k } in
      pose_events-cons n n n (answered id costmap exception s) es [] [] refl
        (pose_events-none k es h)

  -- The first turn of `_update_pose` whose clock has reached the deadline of the pending transaction ends it for
  -- good, whatever it sees: nothing is sent but the rejection, with the reason of the phase and the transform that
  -- had confirmed the pose, if any; and whatever turns and replies of the clear services follow, none of them is
  -- taken up and nothing more is sent, as long as there is no new request.
  pub pose_events-timed_out :
      (k : ℕ) (p : Pending F) (t : Turn F) (es : List (PoseEvent F))
      → fl.lt t.expired_at p.deadline ≡ false
      → has_no_request es ≡ true
      → pose_events geo (record { pending = some p; request_id = k }) (turned t ∷ es) ≡ (
        record { pending = none; request_id = k },
        shown p.status rejected (reason_at p.phase) p.observed ∷ [],
      )
  unfolding pose_event
  pose_events-timed_out k p t es h q =
      let n : PoseNode F = record { pending = none; request_id = k } in
      pose_events-cons (record { pending = some p; request_id = k }) n n (turned t) es _ []
        (update_pose-fail k p t h
          ∙ ap
              (λ (d : String).
                told (record { pending = none; request_id = k })
                  (shown p.status rejected d p.observed ∷ []))
              (reason_at-timed_out p.phase))
        (pose_events-none k es q)
    where
      told : PoseNode F → List (PoseAction F) → Moved F
      told n a = (n, a)
