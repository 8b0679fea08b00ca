-- ===== src/StopEnforcer/Release.antt =====
-- When the STOP lock may be released, and what a STOP request does at once.
use ros_pre_runner.Prelude.{
  String, ◌≡◌, refl, sym, ◌∙◌, ◌&&◌, ◌||◌, Bool, true, false, not, Option, none, some, arith,
  is_some, str_eq, if◌then◌else◌, if_both,
}
use ros_pre_runner.Prelude.Float.{Float}
use ros_pre_runner.StopEnforcer.State.{
  faulty, StopRequest, Enforcer, on_encoder, on_local_control, on_final, Answer, clear_reason,
  older,
}
use ros_pre_runner.StopEnforcer.Requests.{Published, lookup, repeat_request, request, new_request}
use ros_pre_runner.StopEnforcer.Tick.{
  drain_at, status, due, unchanged, Worker, settle_write, drain_until, drain, publish_status, tick,
}
use ros_pre_runner.StopEnforcer.Invariant.{
  Input, asked, timer, step, IsGuarded, settle_write-IsGuarded, encoder, local_control,
  final_command,
}

un_not : (b : Bool) → not b ≡ false → b ≡ true
un_not b e = ground arith

both_held : (a b : Bool) → (not a || not b) ≡ false → (a ≡ true) × (b ≡ true)
both_held a b e = ground arith

-- A reason that is empty was not that of a test that passed.
not_given :
    (b : Bool) (reason rest : String)
    → str_eq reason "" ≡ false
    → str_eq (if b then reason else rest) "" ≡ true
    → (b ≡ false) × (str_eq rest "" ≡ true)
not_given true reason rest given e = cc
not_given false reason rest given e = (refl, e)

module _ {F : Type 0} ⦃fl : Float F⦄ where
  abbrev pub Drained : Option F → F → Type 0
  Drained none now = ⊥
  Drained (some at) now = fl.le at now ≡ true

  -- What the vehicle and the local operator must show for a deliberate clear.
  pub record IsAtRest (n : Enforcer F) (now : F) : Type 0 where
    pub encoder_recent : older (fl.lit 20 100) n.encoder_at now ≡ false
    pub stationary : n.stationary ≡ true
    pub local_recent : older (fl.lit 20 100) n.local_at now ≡ false
    pub released : n.local_released ≡ true
    pub neutral : n.local_neutral ≡ true

  -- The lock may go: the drain of a durable clear is over, and, unless the persisted record was clear
  -- and is only being restored, the vehicle is at rest.
  pub record IsReleasable (n : Enforcer F) (now : F) : Type 0 where
    pub drained : Drained n.clear_at now
    pub durable : n.durable ≡ true
    pub sound : faulty n.fault ≡ false
    pub written : is_some n.write ≡ false
    pub rest : n.stopped ≡ true → IsAtRest n now

  clear_reason-IsAtRest :
      (n : Enforcer F) (now : F)
      → faulty n.fault ≡ false
      → str_eq (clear_reason n now) "" ≡ true
      → IsAtRest n now
  unfolding clear_reason
  clear_reason-IsAtRest n now f e =
      let a = not_given _ _ _ refl e in
      let b = not_given _ _ _ refl a.1 in
      let c = not_given _ _ _ refl b.1 in
      let d = not_given _ _ _ refl c.1 in
      record {
        encoder_recent = a.0;
        stationary = un_not _ b.0;
        local_recent = c.0;
        released = (both_held _ _ d.0).0;
        neutral = (both_held _ _ d.0).1;
      }

  drain_until-release :
      (at : F) (n : Enforcer F) (now : F)
      → faulty n.fault ≡ false
      → n.locked ≡ true
      → (drain_until at n now).0.locked ≡ false
      → (fl.le at now ≡ true) × (n.stopped ≡ true → IsAtRest n now)
  unfolding drain_until
  drain_until-release at n now f l r =
      (ground arith, λ s. clear_reason-IsAtRest n now f (ground arith))

  drain_at-release :
      (o : Option F) (n : Enforcer F) (now : F)
      → (is_some o ≡ true → faulty n.fault ≡ false)
      → n.locked ≡ true
      → (drain_at o n now).0.locked ≡ false
      → Drained o now × (is_some o ≡ true) × (n.stopped ≡ true → IsAtRest n now)
  unfolding drain_at
  drain_at-release none n now f l r = cc
  drain_at-release (some at) n now f l r =
      let d = drain_until-release at n now (f refl) l r in (d.0, refl, d.1)

  drain-release :
      (n : Enforcer F) (now : F)
      → IsGuarded n
      → n.locked ≡ true
      → (drain n now).0.locked ≡ false
      → IsReleasable n now
  unfolding drain
  drain-release n now h l r =
      let d = drain_at-release n.clear_at n now h.drain_sound l r in
      record {
        drained = d.0;
        durable = h.drain_durable d.1;
        sound = h.drain_sound d.1;
        written = h.drain_written d.1;
        rest = d.2;
      }

  locked-settle_write :
      (n : Enforcer F) (w : Worker) (now : F)
      → n.locked ≡ true
      → (settle_write n w now).locked ≡ true
  unfolding settle_write
  locked-settle_write n w now l = ground arith

  locked-publish_status : (n : Enforcer F) (now : F) → (publish_status n now).0.locked ≡ n.locked
  unfolding publish_status
  locked-publish_status n now =
      if_both (λ (t : Published F). t.0.locked ≡ n.locked)
        (unchanged n.last_state_key (status n now) && not (due n.last_state_publish_at now))
        (λ p. refl) (λ p. refl)

  tick-release :
      (n : Enforcer F) (w : Worker) (now : F)
      → IsGuarded n
      → n.locked ≡ true
      → (tick n w now).0.locked ≡ false
      → IsReleasable (settle_write n w now) now
  unfolding tick
  tick-release n w now h l r =
      let n' = settle_write n w now in
      drain-release n' now (settle_write-IsGuarded n w now h) (locked-settle_write n w now l)
        (sym (locked-publish_status (drain n' now).0 now) ∙ r)

  locked-new_request :
      (n : Enforcer F) (q : StopRequest) (now : F)
      → n.locked ≡ true
      → (new_request n q now).0.locked ≡ true
  unfolding new_request
  locked-new_request n q now l = ground arith

  locked-repeat_request :
      (a : Option Answer) (n : Enforcer F) (q : StopRequest) (now : F)
      → n.locked ≡ true
      → (repeat_request a n q now).0.locked ≡ true
  unfolding repeat_request
  locked-repeat_request a n q now l = ground (arith, locked-new_request n q now)

  -- Only the timer releases the STOP lock. It does so when the drain of a clear is over and, with what
  -- the worker reports taken in, the record is durable, no write is pending and there is no fault;
  -- and where a STOP was in force, encoder and local status are recent, the vehicle is stationary and
  -- the local controls are released and neutral.
  pub release_needs_clear :
      (n : Enforcer F) (i : Input F) (now : F)
      → IsGuarded n
      → n.locked ≡ true
      → (step n i now).locked ≡ false
      → (w : Worker) × (i ≡ timer w) × IsReleasable (settle_write n w now) now
  unfolding step on_encoder on_local_control on_final request
  release_needs_clear n (encoder stationary) now h l r = cc
  release_needs_clear n (local_control released neutral) now h l r = cc
  release_needs_clear n (final_command linear angular) now h l r = ground arith
  release_needs_clear n (asked q) now h l r =
      cc (locked-repeat_request (lookup q.requester_id n.request_results) n q now l)
  release_needs_clear n (timer w) now h l r = (w, refl, tick-release n w now h l r)
