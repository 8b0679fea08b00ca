-- ===== src/Gateway/Pose/Way.antt =====
-- The calls of an initial pose of src/runner_paddock/runner_paddock/ros_state_node.py that nothing hinders.
use mathlib.Core.Path.{subst}
use ros_pre_runner.Prelude.{
  ◌≤◌, ap, ℕ, ◌+◌, ◌==◌, ltb, String, str_eq, Bool, true, false, not, ◌&&◌, Option, none, some,
  List, [], ◌∷◌, ◌++◌, ◌≡◌, refl, sym, arith, if◌then◌else◌,
}
use ros_pre_runner.Prelude.Float.{Float}
use ros_pre_runner.Gateway.State.{Role, GatewayResult}
use ros_pre_runner.Gateway.Pose.State.{
  Snapshot, PoseIntent, PoseStatus, PlanarPose, Observed, Phase, waiting_stop, awaiting_pose,
  Costmap, global, local, Pending, Shown, stopping, localizing, applied, PoseAction, published,
  asked, shown, PoseNode, Geometry, rejection, status_of,
}
use ros_pre_runner.Gateway.Pose.Steps.{
  expire, Moved, set_initial_pose, publish_pose, advance, message_of,
}
use ros_pre_runner.Gateway.Pose.Clear.{
  Clients, agrees, start_clear, ask_clear, confirm, finish_clear, complete,
}
use ros_pre_runner.Gateway.Pose.Turn.{
  expires, PoseCall, requests, advances, confirms, replies, pose_call, pose_calls,
}
use ros_pre_runner.Gateway.Pose.Evidence.{
  IsReady-rejection, IsSafe-safety_rejection, IsSame-context_changed, IsSame-unsafe_reason,
}
use ros_pre_runner.Gateway.Pose.Protocol.{IsReady, IsSame, left}

abbrev pub other_costmap : Costmap → Costmap
other_costmap global = local
other_costmap local = global

-- Both services are ready, and neither call raises.
abbrev pub IsServing : Clients → Type 0
IsServing clients =
    (clients.global_ready ≡ true)
    × (clients.local_ready ≡ true)
    × (clients.global_error ≡ none)
    × (clients.local_error ≡ none)

skips : {A : Type 0} (x y : A) (b : Bool) → b ≡ false → (if b then x else y) ≡ y
skips x y b h = rw (h) refl

-- Nothing is against a request.
granted :
    {A : Type 0} (x y : A) (reason : String) (b : Bool)
    → reason ≡ ""
    → b ≡ false
    → (if not (
          str_eq
            (if str_eq reason "" && b
              then "slam_toolbox /initialpose subscriber unavailable"
              else reason)
            "")
        then x
        else y)
      ≡ y
granted x y reason b h k = rw (h, k) refl

module _ {F : Type 0} ⦃fl : Float F⦄ (geo : Geometry F) where
  pub pose_calls-nil : (n : PoseNode F) → pose_calls geo n [] ≡ (n, [])
  unfolding pose_calls
  pose_calls-nil n = refl

  pub pose_calls-cons :
      (n m u : PoseNode F) (c : PoseCall F) (cs : List (PoseCall F)) (a b : List (PoseAction F))
      → pose_call geo n c ≡ (m, a)
      → pose_calls geo m cs ≡ (u, b)
      → pose_calls geo n (c ∷ cs) ≡ (u, a ++ b)
  unfolding pose_calls
  pose_calls-cons n m u c cs a b h k =
      subst
        (λ (d : Moved F).
          ◌≡◌ {A = Moved F} ((pose_calls geo d.0 cs).0, d.1 ++ (pose_calls geo d.0 cs).1)
            (u, a ++ b))
        (sym h) (ap (λ (d : Moved F). (d.0, a ++ d.1)) k)

  module _ (k : ℕ) (intent : PoseIntent F) (first : Snapshot) where
    abbrev pub status : PoseStatus F
    status = status_of intent first

    -- The transaction in a phase
    abbrev pub in_phase : Phase → F → Bool → Bool → Option (Observed F) → Pending F
    in_phase phase deadline g l observed = record {
      request_id = k + 1;
      phase = phase;
      deadline = deadline;
      status = status;
      intent = intent;
      global_left = g;
      local_left = l;
      clear_errors = [];
      observed = observed;
    }

    abbrev pub at : Phase → F → Bool → Bool → Option (Observed F) → PoseNode F
    at phase deadline g l observed = record {
      pending = some (in_phase phase deadline g l observed);
      request_id = k + 1;
    }

    pub requested :
        (role : Role) (subscribers : ℕ) (now : F)
        → IsReady first
        → 1 ≤ subscribers
        → pose_call geo
            (record { pending = none; request_id = k })
            (requests intent role first subscribers now)
          ≡ (
            at waiting_stop (fl.add now (fl.lit 5 1)) false false none,
            shown status stopping "STOP requested; awaiting applied STOP and stationary" none ∷ [],
          )
    unfolding pose_call set_initial_pose
    requested role subscribers now r h =
        ap (λ (m : Moved F × GatewayResult F). m.0)
          (granted _ _ (rejection first) (ltb subscribers 1) (IsReady-rejection first r)
            (ground arith))

    pub advanced :
        (deadline : F) (s : Snapshot) (subscribers : ℕ) (now : F)
        → IsSame status s
        → 1 ≤ subscribers
        → pose_call geo (at waiting_stop deadline false false none) (advances s subscribers now) ≡ (
          at awaiting_pose (fl.add now (fl.lit 5 1)) false false none,
          published (message_of geo intent)
              ∷ shown status localizing "pose published; awaiting slam_toolbox confirmation" none
              ∷ [],
        )
    unfolding pose_call advance publish_pose
    advanced deadline s subscribers now r h =
        let d : ltb subscribers 1 ≡ false = ground arith in
        let e : (k + 1 == k + 1) ≡ true = ground arith in
        rw (IsSame-context_changed status s r, IsSafe-safety_rejection s r.1, d, e) refl

    pub confirmed :
        (deadline : F) (observed : Observed F) (robot : PlanarPose F) (clients : Clients)
        (s : Snapshot) (now : F)
        → IsSame status s
        → agrees geo intent robot ≡ true
        → clients.global_ready ≡ true
        → clients.local_ready ≡ true
        → clients.global_error ≡ none
        → clients.local_error ≡ none
        → pose_call geo
            (at awaiting_pose deadline false false none)
            (confirms observed robot clients s now)
          ≡ (
            at Phase.clearing (fl.add now (fl.lit 2 1)) true true (some observed),
            shown status Shown.clearing "pose confirmed; clearing global and local costmaps"
                  (some observed)
                ∷ asked global
                ∷ asked local
                ∷ [],
          )
    unfolding pose_call confirm start_clear ask_clear
    confirmed deadline observed robot clients s now r a gr lr ge le =
        rw (a, IsSame-unsafe_reason status s r, gr, lr, ge, le)
          (skips _ _ (not (k + 1 == k + 1 && true)) (ground arith))

    pub heard_first :
        (deadline : F) (observed : Observed F) (costmap : Costmap) (s : Snapshot)
        → pose_call geo
            (at Phase.clearing deadline true true (some observed))
            (replies (k + 1) costmap none s)
          ≡ (
            at Phase.clearing deadline
                (left costmap false true)
                (left costmap true false)
                (some observed),
            [],
          )
    unfolding pose_call finish_clear
    heard_first deadline observed global s =
        skips _ _ (not ((k + 1 == k + 1 && true) && true)) (ground arith)
    heard_first deadline observed local s =
        skips _ _ (not ((k + 1 == k + 1 && true) && true)) (ground arith)

    pub heard_last :
        (deadline : F) (observed : Observed F) (costmap : Costmap) (s : Snapshot)
        → IsSame status s
        → pose_call geo
            (at Phase.clearing deadline
              (left costmap false true)
              (left costmap true false)
              (some observed))
            (replies (k + 1) (other_costmap costmap) none s)
          ≡ (
            record { pending = none; request_id = k + 1 },
            shown status applied
                  "pose confirmed; global and local costmaps cleared; STOP remains asserted"
                  (some observed)
                ∷ [],
          )
    unfolding pose_call finish_clear complete
    heard_last deadline observed global s r =
        rw (IsSame-unsafe_reason status s r)
          (skips _ _ (not ((k + 1 == k + 1 && true) && true)) (ground arith))
    heard_last deadline observed local s r =
        rw (IsSame-unsafe_reason status s r)
          (skips _ _ (not ((k + 1 == k + 1 && true) && true)) (ground arith))

    pub expires_later :
        (phase : Phase) (deadline : F) (g l : Bool) (observed : Option (Observed F)) (now : F)
        → fl.lt now deadline ≡ true
        → pose_call geo (at phase deadline g l observed) (expires now)
          ≡ (at phase deadline g l observed, [])
    unfolding pose_call expire
    expires_later phase deadline g l observed now h = rw h refl

    pub advances_no_more :
        (deadline : F) (s : Snapshot) (subscribers : ℕ) (now : F)
        → pose_call geo (at awaiting_pose deadline false false none) (advances s subscribers now)
          ≡ (at awaiting_pose deadline false false none, [])
    unfolding pose_call advance
    advances_no_more deadline s subscribers now = refl
