-- ===== src/Gateway/Obeys/Requests.antt =====
-- What answers of src/runner_paddock/runner_paddock/gateway.py without control events, its goal and its initial
-- pose need to keep to the protocol.
use ros_pre_runner.Prelude.{String, str_eq, true, not, ◌&&◌, [], ◌≡◌, sym, if_both}
use mathlib.Core.Path.{subst}
use native.Mathlib.Omega.{arith}
use ros_pre_runner.Prelude.Float.{Float}
use ros_pre_runner.Gateway.Values.{Fields, Builtins}
use ros_pre_runner.Gateway.State.{OperatorGateway, Answered, counted}
use ros_pre_runner.Gateway.Lease.{at_rest}
use ros_pre_runner.Gateway.Requests.{
  pose_of, frame_of, with_pose, do_select_goal, do_set_initial_pose,
}
use ros_pre_runner.Gateway.Protocol.{
  view_with, view, intents_of, events_by, stops, aims, EventPath, done,
}
use ros_pre_runner.Gateway.Obeys.{
  Obeys, reject-Obeys, owned-Obeys, owner-Obeys, when_converted-Obeys,
}

module _ {F : Type 0} ⦃fl : Float F⦄ (g : OperatorGateway) (conn : String) where
  -- An answer that leaves the gateway as it was and has no control event.
  pub quiet-Obeys :
      (a : Answered F) → a.1 ≡ g → events_by conn (intents_of a.0) ≡ [] → Obeys conn g a
  quiet-Obeys a e n =
      subst (λ es. EventPath {F = F} (view g) es (view a.1)) (sym n)
        (subst (λ g'. EventPath {F = F} (view g) [] (view g')) (sym e) (done (view g)))

  module _ (b : Builtins F) (action : Fields F) where
    with_pose-Obeys :
        (needs framed : String) (f : F × F × F → Answered F)
        → ((p : F × F × F)
            → fl.is_finite p.0 ≡ true
            → fl.is_finite p.1 ≡ true
            → fl.is_finite p.2 ≡ true
            → Obeys conn g (f p))
        → Obeys conn g (with_pose b g conn action needs framed f)
    unfolding with_pose
    with_pose-Obeys needs framed f h = when_converted-Obeys conn g needs (pose_of b action) _ (λ p.
        if_both (λ (a : Answered F). Obeys conn g a)
          (not (fl.is_finite p.0 && (fl.is_finite p.1 && fl.is_finite p.2)))
          (λ _. reject-Obeys conn g needs)
          (λ e.
            if_both (λ (a : Answered F). Obeys conn g a) (not (str_eq (frame_of b action) "map"))
              (λ _. reject-Obeys conn g framed)
              (λ _. h p (ground arith) (ground arith) (ground arith))))

    pub do_select_goal-Obeys : Obeys conn g (do_select_goal b g conn action)
    unfolding do_select_goal intents_of events_by view_with
    do_select_goal-Obeys = owned-Obeys conn g _ (λ h.
        with_pose-Obeys "goal needs finite x, y and yaw" "goal frame must be map" _ (λ p x y yaw.
          owner-Obeys conn g _ (λ o. view_with o (counted g)) h
            (λ owner q.
              aims owner g.sequence g.client_id g.lease_id g.run_pressed g.is_manual_active p.0 p.1
                p.2 q x y yaw)))

    pub do_set_initial_pose-Obeys : Obeys conn g (do_set_initial_pose b g conn action)
    unfolding do_set_initial_pose intents_of events_by view_with
    do_set_initial_pose-Obeys = owned-Obeys conn g _ (λ h.
        with_pose-Obeys "initial pose needs finite x, y and yaw" "initial pose frame must be map" _
          (λ p x y yaw.
            owner-Obeys conn g _ (λ o. view_with o (counted (at_rest g))) h
              (λ owner q.
                stops owner g.sequence g.client_id g.lease_id g.run_pressed g.is_manual_active q)))
