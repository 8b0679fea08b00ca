-- ===== src/Gateway/Pose/Evidence.antt =====
-- What the reasons of the initial pose transaction of src/runner_paddock/runner_paddock/ros_state_node.py tell
-- where they are empty, and when they are.
use ros_pre_runner.Prelude.{
  ◌∙◌, ℕ, ◌==◌, String, str_eq, eq_iff, Bool, true, false, not, ◌&&◌, ◌||◌, Option, none, some, ◌≡◌,
  ◌≢◌, refl, if_both, arith, if◌then◌else◌, ap, Bool-cases, inl, inr,
}
use text.Mathlib.TextLemmas.{append-eq-nil_iff}
use ros_pre_runner.ModeRuntime.Text.{◌<>◌}
use ros_pre_runner.Gateway.Pose.State.{
  Snapshot, PoseStatus, is_number, is_complete, rejection, safety_rejection, context_changed,
  unsafe_reason,
}
use ros_pre_runner.Gateway.Pose.Protocol.{IsReady, IsSafe, IsSame}

-- No reason: the test in front of a reason failed.
pub unless :
    (Q : Type 0) (b : Bool) (reason rest : String)
    → str_eq reason "" ≡ false
    → (b ≡ false → str_eq rest "" ≡ true → Q)
    → str_eq (if b then reason else rest) "" ≡ true
    → Q
unless Q true reason rest n f h = absurd (cc)
unless Q false reason rest n f h = f refl h

pub safety_rejection-IsSafe : (s : Snapshot) → str_eq (safety_rejection s) "" ≡ true → IsSafe s
unfolding safety_rejection
safety_rejection-IsSafe s = unless (IsSafe s) (not s.stop_state_fresh) _ _ refl (λ a.
    unless (IsSafe s) (not (s.stopped && (s.locked && (s.healthy && s.applied)))) _ _ refl (λ b.
      unless (IsSafe s) (not s.encoder_state_fresh) _ _ refl (λ c.
        unless (IsSafe s) (not s.stationary) _ _ refl (λ d _. record {
          stop_is_fresh = ground arith;
          is_stopped = ground arith;
          is_locked = ground arith;
          is_healthy = ground arith;
          is_applied = ground arith;
          encoder_is_fresh = ground arith;
          is_stationary = ground arith;
        }))))

number_of : (o : Option ℕ) (n : ℕ) → is_number o n ≡ true → o ≡ some n
number_of none n h = absurd (cc)
number_of (some m) n h = ap some (ground arith)

pub not_empty : (t : String) → str_eq t "" ≡ false → t ≢ ""
not_empty t h e = absurd (cc (h, (eq_iff t "").1 e))

pub rejection-IsReady : (s : Snapshot) → str_eq (rejection s) "" ≡ true → IsReady s
unfolding rejection
rejection-IsReady s = unless (IsReady s) (not s.mode_fresh) _ _ refl (λ a.
    unless (IsReady s) (not (is_number s.mode 2) || not (is_number s.status 0)) _ _ refl (λ b.
      unless (IsReady s) (not s.ready) _ _ refl (λ c.
        unless (IsReady s)
          (not s.map_state_fresh
            || (str_eq s.selected_map_applied ""
                || not (is_complete s.selected_map_applied s.catalog)))
          _ _ refl
          (λ d.
            unless (IsReady s) (not (str_eq s.active_autonomy_map s.selected_map_applied)) _ _ refl
              (λ f _. record {
                mode_is_fresh = ground arith;
                is_autonomy = number_of s.mode 2 (ground arith);
                is_stable = number_of s.status 0 (ground arith);
                is_ready = ground arith;
                map_is_fresh = ground arith;
                map_is_selected = not_empty s.selected_map_applied (ground arith);
                map_is_complete = ground arith;
                map_is_active =
                    (eq_iff s.active_autonomy_map s.selected_map_applied).0 (ground arith);
              })))))

pub true_of_not : (b : Bool) → not b ≡ false → b ≡ true
true_of_not true h = refl
true_of_not false h = absurd (cc)

-- A reason behind a prefix is not empty.
prefixed : (t : String) → str_eq ("initial pose context lost: " <> t) "" ≡ false
prefixed t = elim (Bool-cases (str_eq ("initial pose context lost: " <> t) "")) [
  | inr e ↦ e
  | inl e ↦ absurd (
      not_empty "initial pose context lost: " refl
        (append-eq-nil_iff.0 ((eq_iff ("initial pose context lost: " <> t) "").0 e)).0)
]

differs : (t : String) → t ≢ "" → str_eq t "" ≡ false
differs t h = elim (Bool-cases (str_eq t "")) [ inl e ↦ absurd (h ((eq_iff t "").0 e)) | inr e ↦ e ]

pub IsReady-rejection : (s : Snapshot) → IsReady s → rejection s ≡ ""
unfolding rejection
IsReady-rejection s r =
    let a = r.mode_is_fresh in
    let b = differs s.selected_map_applied r.map_is_selected in
    let d = (eq_iff s.active_autonomy_map s.selected_map_applied).1 r.map_is_active in
    rw
      (
        r.mode_is_fresh, r.is_autonomy, r.is_stable, r.is_ready, r.map_is_fresh, b,
        r.map_is_complete, d,
      )
      refl

pub IsSafe-safety_rejection : (s : Snapshot) → IsSafe s → safety_rejection s ≡ ""
unfolding safety_rejection
IsSafe-safety_rejection s h =
    rw
      (
        h.stop_is_fresh, h.is_stopped, h.is_locked, h.is_healthy, h.is_applied, h.encoder_is_fresh,
        h.is_stationary,
      )
      refl

module _ {F : Type 0} where
  context_changed-lem :
      (status : PoseStatus F) (s : Snapshot)
      → str_eq (context_changed status s) "" ≡ true
      → (str_eq (rejection s) "" ≡ true)
        × (s.runtime_epoch ≡ status.runtime_epoch)
        × (s.selected_map_applied ≡ status.map)
  unfolding context_changed
  context_changed-lem status s =
      let Q : Type 0 =
        (str_eq (rejection s) "" ≡ true)
        × (s.runtime_epoch ≡ status.runtime_epoch)
        × (s.selected_map_applied ≡ status.map) in
      unless Q (not (str_eq (rejection s) "")) _ _ (prefixed (rejection s)) (λ a.
        unless Q
          (not (s.runtime_epoch == status.runtime_epoch)
            || (not (str_eq s.selected_map_applied status.map)
                || not (str_eq s.active_autonomy_map status.map)))
          _ _ refl
          (λ b _. (
            true_of_not (str_eq (rejection s) "") a,
            ground arith,
            (eq_iff s.selected_map_applied status.map).0 (ground arith),
          )))

  pub unsafe_reason-IsSame :
      (status : PoseStatus F) (s : Snapshot)
      → str_eq (context_changed status s) "" ≡ true
      → str_eq (safety_rejection s) "" ≡ true
      → IsSame status s
  unsafe_reason-IsSame status s h k =
      let c = context_changed-lem status s h in
      (rejection-IsReady s c.0, safety_rejection-IsSafe s k, c.1, c.2)

  pub unsafe_reason-empty :
      (status : PoseStatus F) (s : Snapshot)
      → str_eq (unsafe_reason status s) "" ≡ true
      → IsSame status s
  unfolding unsafe_reason
  unsafe_reason-empty status s =
      if_both (λ (t : String). str_eq t "" ≡ true → IsSame status s)
        (str_eq (context_changed status s) "") (λ e h. unsafe_reason-IsSame status s e h)
        (λ e h. absurd (cc))

  pub IsSame-context_changed :
      (status : PoseStatus F) (s : Snapshot) → IsSame status s → context_changed status s ≡ ""
  unfolding context_changed
  IsSame-context_changed status s (r, f, e, m) =
      let a = (eq_iff s.selected_map_applied status.map).1 m in
      let b = (eq_iff s.active_autonomy_map status.map).1 (r.map_is_active ∙ m) in
      let d : (s.runtime_epoch == status.runtime_epoch) ≡ true = ground arith in
      rw (IsReady-rejection s r, a, b, d) refl

  pub IsSame-unsafe_reason :
      (status : PoseStatus F) (s : Snapshot) → IsSame status s → unsafe_reason status s ≡ ""
  unfolding unsafe_reason
  IsSame-unsafe_reason status s h =
      rw (IsSame-context_changed status s h, IsSafe-safety_rejection s h.1) refl
