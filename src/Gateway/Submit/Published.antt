-- ===== src/Gateway/Submit/Published.antt =====
-- What `submit` of src/runner_paddock/runner_paddock/ros_state_node.py publishes of the control events.
use ros_pre_runner.Prelude.{
  ap, String, Bool, true, ◌&&◌, none, some, List, [], ◌∷◌, ◌≡◌, refl, sym, ◌⊎◌, inl, inr, arith,
  if_both,
}
use ros_pre_runner.Prelude.Float.{Float}
use ros_pre_runner.Gateway.Values.{Json, Builtins}
use ros_pre_runner.Gateway.State.{
  OperatorGateway, Ids, Intent, ControlEventIntent, control_event, mode_request, map_request,
  config_request, recording_request, save_semantics, clear_costmaps, obstacle_processing,
  autonomy_tuning, save_speed_profile, delete_speed_profile, initial_pose, GatewayResult, Answered,
}
use ros_pre_runner.Gateway.Handle.{handle}
use ros_pre_runner.Gateway.Protocol.{intents_of, events_by}
use ros_pre_runner.Gateway.Submit.{
  is_named, dispatch, autonomy_without_map, checked, submitted, submit,
}
use ros_pre_runner.Gateway.Submit.Tails.{
  tail_free, clear_stops, tail_free-handle, clear_stops-handle, no_events-handle,
}

module _ {F : Type 0} where
  -- The events of an action are published, all of them or, if the action is CLEAR STOP, possibly none.
  abbrev pub IsPublished :
      Bool → List (String × ControlEventIntent F) → List (String × ControlEventIntent F) → Type 0
  IsPublished is_pose_active es published =
      (published ≡ es) ⊎ ((published ≡ []) × (clear_stops es ≡ true) × (is_pose_active ≡ true))

module _ {F : Type 0} (work : Intent F → GatewayResult F → GatewayResult F) (conn : String) where
  -- The loop publishes each control event of intents that have them in front.
  events-dispatch :
      (r : GatewayResult F) (is : List (Intent F))
      → tail_free is ≡ true
      → events_by conn (dispatch work r is).1 ≡ events_by conn is
  unfolding dispatch events_by tail_free
  events-dispatch r [] t = refl
  events-dispatch r (control_event e ∷ []) t = refl
  events-dispatch r (control_event e ∷ j ∷ rest) t =
      ap (λ es. (conn, e) ∷ es) (events-dispatch r (j ∷ rest) t)
  events-dispatch r (mode_request m o l ∷ []) t = refl
  events-dispatch r (mode_request m o l ∷ j ∷ rest) t = events-dispatch r (j ∷ rest) t
  events-dispatch r (map_request o l n s ∷ []) t = refl
  events-dispatch r (map_request o l n s ∷ j ∷ rest) t = events-dispatch r (j ∷ rest) t
  events-dispatch r (config_request l v n x ∷ []) t = refl
  events-dispatch r (config_request l v n x ∷ j ∷ rest) t = events-dispatch r (j ∷ rest) t
  events-dispatch r (recording_request o l n p ∷ []) t = refl
  events-dispatch r (recording_request o l n p ∷ j ∷ rest) t = events-dispatch r (j ∷ rest) t
  events-dispatch r (save_semantics n d ∷ []) t = refl
  events-dispatch r (clear_costmaps ∷ []) t = refl
  events-dispatch r (obstacle_processing c o ∷ []) t = refl
  events-dispatch r (autonomy_tuning v s ∷ []) t = refl
  events-dispatch r (save_speed_profile n v ∷ []) t = refl
  events-dispatch r (delete_speed_profile n ∷ []) t = refl
  events-dispatch r (initial_pose x y z f ∷ []) t = refl
  events-dispatch r (_ ∷ j ∷ rest) t = absurd (cc)

  module _ (b : Builtins F) (is_pose_active : Bool) (map : String) (v : Json F) where
    checked-IsPublished :
        (r : GatewayResult F)
        → tail_free r.intents ≡ true
        → (is_named "clear_stop" v ≡ true → clear_stops (events_by conn r.intents) ≡ true)
        → (is_named "select_mode" v ≡ true → events_by conn r.intents ≡ [])
        → let c = checked b is_pose_active map v r in
          IsPublished is_pose_active
            (events_by conn r.intents)
            (events_by conn (dispatch work c c.intents).1)
    unfolding checked dispatch events_by
    checked-IsPublished r t k m =
        let P : GatewayResult F → Type 0 = λ c.
          IsPublished is_pose_active (events_by conn r.intents)
            (events_by conn (dispatch work c c.intents).1) in
        if_both P (r.accepted && (is_named "clear_stop" v && is_pose_active))
          (λ p. inr (refl, k (ground arith), ground arith))
          (λ _.
            if_both P (r.accepted && autonomy_without_map b map v)
              (λ p. inl (sym (m (ground arith)))) (λ _. inl (events-dispatch r r.intents t)))

    submitted-IsPublished :
        (a : Answered F)
        → tail_free (intents_of a.0) ≡ true
        → (is_named "clear_stop" v ≡ true → clear_stops (events_by conn (intents_of a.0)) ≡ true)
        → (is_named "select_mode" v ≡ true → events_by conn (intents_of a.0) ≡ [])
        → IsPublished is_pose_active
            (events_by conn (intents_of a.0))
            (events_by conn (submitted b work is_pose_active map v a.0 a.1).1)
    unfolding submitted intents_of events_by
    submitted-IsPublished (none, g) t k m = inl refl
    submitted-IsPublished (some r, g) t k m = checked-IsPublished r t k m

    submitted-gateway : (a : Answered F) → (submitted b work is_pose_active map v a.0 a.1).2 ≡ a.1
    unfolding submitted
    submitted-gateway (none, g) = refl
    submitted-gateway (some r, g) = refl

module _ {F : Type 0} ⦃fl : Float F⦄ where
  -- Whatever a browser sends, and whatever result the node's own work has: `submit` leaves the gateway as
  -- `handle` does and publishes all the control events that `handle` gives, in their order, or else none
  -- of them, which it does only while an initial pose is on its way and if they are all CLEAR STOPs.
  pub submit-IsPublished :
      (b : Builtins F) (work : Intent F → GatewayResult F → GatewayResult F) (is_pose_active : Bool)
      (map : String) (g : OperatorGateway) (conn : String) (v : Json F) (ids : Ids)
      → let a = handle b g conn v ids in
        let s = submit b work is_pose_active map g conn v ids in
        (s.2 ≡ a.1)
        × IsPublished is_pose_active (events_by conn (intents_of a.0)) (events_by conn s.1)
  unfolding submit
  submit-IsPublished b work is_pose_active map g conn v ids =
      let a = handle b g conn v ids in
      (
        submitted-gateway work conn b is_pose_active map v a,
        submitted-IsPublished work conn b is_pose_active map v a (tail_free-handle b g conn ids v)
            (clear_stops-handle b g conn ids v) (no_events-handle b g conn ids v),
      )
