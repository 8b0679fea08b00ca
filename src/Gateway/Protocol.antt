-- ===== src/Gateway/Protocol.antt =====
-- The control events of src/runner_paddock/runner_paddock/gateway.py as a protocol of their own: the lease
-- that a receiver of the events sees, the events that may follow, and the events of a list of calls.
use ros_pre_runner.Prelude.{
  ℕ, ◌+◌, String, str_eq, Bool, true, false, Option, none, some, List, [], ◌∷◌, ◌++◌, ◌≡◌,
}
use ros_pre_runner.Prelude.Float.{Float, zero_f}
use ros_pre_runner.CommandSupervisor.{
  ControlEvent, run_pressed, run_released, stop, manual_active, manual_inactive, goal_selected,
  lease_acquired, lease_released, lease_lost, heartbeat, clear_stop,
}
use ros_pre_runner.Gateway.Values.{Json, Builtins}
use ros_pre_runner.Gateway.State.{
  OperatorGateway, Ids, Answered, GatewayResult, Intent, control_event, ControlEventIntent,
  on_disconnect,
}
use ros_pre_runner.Gateway.Handle.{handle}

-- The last number; under a lease also who holds it, the client and the lease, RUN, and manual control.
pub data View : Type 0 where
  free : ℕ → View
  held : String → ℕ → String → String → Bool → Bool → View

unfoldable pub view_with : Option String → OperatorGateway → View
view_with none g = free g.sequence
view_with (some owner) g =
    held owner g.sequence g.client_id g.lease_id g.run_pressed g.is_manual_active

abbrev pub view : OperatorGateway → View
view g = view_with g.owner_conn g

-- A connection's call: a message, with the ids at hand, or the end of the connection.
pub data Call (F : Type 0) : Type 0 where
  message : String → Json F → Ids → Call F
  disconnect : String → Call F

module _ {F : Type 0} where
  abbrev pub caller : Call F → String
  caller (message conn action ids) = conn
  caller (disconnect conn) = conn

  unfoldable pub intents_of : Option (GatewayResult F) → List (Intent F)
  intents_of none = []
  intents_of (some r) = r.intents

  -- The control events among intents, each with who called.
  unfoldable pub events_by : String → List (Intent F) → List (String × ControlEventIntent F)
  events_by conn [] = []
  events_by conn (control_event e ∷ rest) = (conn, e) ∷ events_by conn rest
  events_by conn (_ ∷ rest) = events_by conn rest

module _ {F : Type 0} ⦃fl : Float F⦄ where
  -- An event without payload
  abbrev pub plain : ControlEvent → ℕ → String → String → ControlEventIntent F
  plain event n client lease = record {
    event = event;
    sequence = n;
    client_id = client;
    lease_id = lease;
    goal_frame = "map";
    goal_x = zero_f;
    goal_y = zero_f;
    goal_yaw = zero_f;
    manual_speed_mps = zero_f;
    manual_steering = zero_f;
  }

  -- What the connection that calls may send, and the lease after it.
  pub data Sends (conn : String) : View → ControlEventIntent F → View → Type 0 where
    acquires :
        (n : ℕ) (client lease : String)
        → Sends conn
            (free n)
            (plain lease_acquired (n + 1) client lease)
            (held conn (n + 1) client lease false false)
    releases :
        (owner : String) (n : ℕ) (client lease : String) (run manual : Bool)
        → str_eq conn owner ≡ true
        → Sends conn
            (held owner n client lease run manual)
            (plain lease_released (n + 1) client lease)
            (free (n + 1))
    revokes :
        (owner : String) (n : ℕ) (client lease : String) (run manual : Bool)
        → str_eq conn owner ≡ false
        → Sends conn
            (held owner n client lease run manual)
            (plain lease_lost (n + 1) client lease)
            (free (n + 1))
    beats :
        (owner : String) (n : ℕ) (client lease : String) (run manual : Bool)
        → str_eq conn owner ≡ true
        → Sends conn
            (held owner n client lease run manual)
            (plain heartbeat (n + 1) client lease)
            (held owner (n + 1) client lease run manual)
    clears :
        (owner : String) (n : ℕ) (client lease : String) (run manual : Bool)
        → str_eq conn owner ≡ true
        → Sends conn
            (held owner n client lease run manual)
            (plain clear_stop (n + 1) client lease)
            (held owner (n + 1) client lease run manual)
    presses :
        (owner : String) (n : ℕ) (client lease : String) (run manual : Bool)
        → str_eq conn owner ≡ true
        → run ≡ false
        → Sends conn
            (held owner n client lease run manual)
            (plain run_pressed (n + 1) client lease)
            (held owner (n + 1) client lease true manual)
    lets_go :
        (owner : String) (n : ℕ) (client lease : String) (run manual : Bool)
        → str_eq conn owner ≡ true
        → run ≡ true
        → Sends conn
            (held owner n client lease run manual)
            (plain run_released (n + 1) client lease)
            (held owner (n + 1) client lease false manual)
    stops :
        (owner : String) (n : ℕ) (client lease : String) (run manual : Bool)
        → str_eq conn owner ≡ true
        → Sends conn
            (held owner n client lease run manual)
            (plain stop (n + 1) client lease)
            (held owner (n + 1) client lease false false)
    steers :
        (owner : String) (n : ℕ) (client lease : String) (run manual : Bool) (speed steering : F)
        → str_eq conn owner ≡ true
        → fl.is_finite speed ≡ true
        → fl.is_finite steering ≡ true
        → Sends conn
            (held owner n client lease run manual)
            (record (plain manual_active (n + 1) client lease) {
              manual_speed_mps = speed;
              manual_steering = steering;
            })
            (held owner (n + 1) client lease false true)
    rests :
        (owner : String) (n : ℕ) (client lease : String) (run manual : Bool)
        → str_eq conn owner ≡ true
        → manual ≡ true
        → Sends conn
            (held owner n client lease run manual)
            (plain manual_inactive (n + 1) client lease)
            (held owner (n + 1) client lease run false)
    aims :
        (owner : String) (n : ℕ) (client lease : String) (run manual : Bool) (x y yaw : F)
        → str_eq conn owner ≡ true
        → fl.is_finite x ≡ true
        → fl.is_finite y ≡ true
        → fl.is_finite yaw ≡ true
        → Sends conn
            (held owner n client lease run manual)
            (record (plain goal_selected (n + 1) client lease) {
              goal_x = x;
              goal_y = y;
              goal_yaw = yaw;
            })
            (held owner (n + 1) client lease run manual)

  pub data EventPath : View → List (String × ControlEventIntent F) → View → Type 0 where
    done : (v : View) → EventPath v [] v
    sends :
        (conn : String) (v w u : View) (e : ControlEventIntent F)
        (es : List (String × ControlEventIntent F))
        → Sends conn v e w
        → EventPath w es u
        → EventPath v ((conn, e) ∷ es) u

  module _ (b : Builtins F) where
    unfoldable pub answer : OperatorGateway → Call F → Answered F
    unfolding on_disconnect handle
    answer g (message conn action ids) = handle b g conn action ids
    answer g (disconnect conn) = on_disconnect g conn

    -- The events of the calls in their order, and the gateway behind them.
    unfoldable pub answers :
        OperatorGateway → List (Call F) → List (String × ControlEventIntent F) × OperatorGateway
    unfolding answer events_by intents_of
    answers g [] = ([], g)
    answers g (c ∷ cs) =
        let a = answer g c in
        let rest = answers a.1 cs in (events_by (caller c) (intents_of a.0) ++ rest.0, rest.1)
