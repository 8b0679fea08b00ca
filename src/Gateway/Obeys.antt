-- ===== src/Gateway/Obeys.antt =====
-- An answer of src/runner_paddock/runner_paddock/gateway.py that keeps to the protocol of the control events,
-- and what the helpers of the actions need for it.
mod Lease
mod Requests
pub mod Runs
use ros_pre_runner.Prelude.{String, str_eq, true, false, Option, none, some, [], ◌∷◌, ◌≡◌, if_both}
use ros_pre_runner.Prelude.Float.{Float}
use ros_pre_runner.Gateway.Values.{Converted, converted, invalid, overflow}
use ros_pre_runner.Gateway.State.{
  OperatorGateway, Answered, ControlEventIntent, is_owner_conn, reject, owned,
}
use ros_pre_runner.Gateway.Lease.{when_converted}
use ros_pre_runner.Gateway.Protocol.{
  View, view_with, view, intents_of, events_by, Sends, EventPath, done, sends,
}

module _ {F : Type 0} ⦃fl : Float F⦄ where
  abbrev pub Obeys : String → OperatorGateway → Answered F → Type 0
  Obeys conn g a = EventPath (view g) (events_by conn (intents_of a.0)) (view a.1)

  pub reject-Obeys :
      (conn : String) (g : OperatorGateway) (reason : String) → Obeys conn g (reject g conn reason)
  unfolding reject intents_of events_by
  reject-Obeys conn g reason = done (view g)

  pub owned-Obeys :
      (conn : String) (g : OperatorGateway) (rest : Answered F)
      → (is_owner_conn g conn ≡ true → Obeys conn g rest)
      → Obeys conn g (owned g conn rest)
  unfolding owned
  owned-Obeys conn g rest h =
      if_both (λ (a : Answered F). Obeys conn g a) (is_owner_conn g conn) h
        (λ _. reject-Obeys conn g "this session does not hold the lease")

  -- An event of the owner.
  pub owner-Obeys :
      (conn : String) (g : OperatorGateway) (e : ControlEventIntent F) (w : Option String → View)
      → is_owner_conn g conn ≡ true
      → ((owner : String)
          → str_eq conn owner ≡ true
          → Sends conn (view_with (some owner) g) e (w (some owner)))
      → EventPath (view g) ((conn, e) ∷ []) (w g.owner_conn)
  unfolding is_owner_conn
  owner-Obeys conn g e w h k = by_owner g.owner_conn h
    where
      by_owner :
          (o : Option String)
          → elim o [ none ↦ false | some owner ↦ str_eq conn owner ] ≡ true
          → EventPath (view_with o g) ((conn, e) ∷ []) (w o)
      by_owner none q = absurd (cc)
      by_owner (some owner) q =
          sends conn (view_with (some owner) g) (w (some owner)) (w (some owner)) e [] (k owner q)
            (done (w (some owner)))

  pub when_converted-Obeys :
      {A : Type 0} (conn : String) (g : OperatorGateway) (reason : String) (c : Converted A)
      (f : A → Answered F)
      → ((x : A) → Obeys conn g (f x))
      → Obeys conn g (when_converted g conn reason c f)
  unfolding intents_of events_by
  when_converted-Obeys conn g reason (converted x) f h = h x
  when_converted-Obeys conn g reason invalid f h = reject-Obeys conn g reason
  when_converted-Obeys conn g reason overflow f h = done (view g)
