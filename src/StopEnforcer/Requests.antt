-- ===== src/StopEnforcer/Requests.antt =====
-- `request` and `_ack` of src/runner_paddock/runner_paddock/stop_enforcer.py.
use ros_pre_runner.Prelude.{
  ◌+◌, String, Bool, true, false, not, ◌&&◌, Option, none, some, List, [], ◌∷◌, is_some, str_eq,
  ltb, ◌==◌, if◌then◌else◌,
}
use ros_pre_runner.Prelude.Float.{Float}
use ros_pre_runner.StopEnforcer.State.{
  Record, StopRequest, Answer, Enforcer, Output, stop_lock, zero_velocity, submit, clear_reason,
}

-- The dictionary `request_results`
unfoldable pub lookup : String → List (String × Answer) → Option Answer
lookup k [] = none
lookup k ((j, a) ∷ rest) = if str_eq j k then some a else lookup k rest

unfoldable pub insert : String → Answer → List (String × Answer) → List (String × Answer)
insert k a [] = (k, a) ∷ []
insert k a ((j, b) ∷ rest) = if str_eq j k then (k, a) ∷ rest else (j, b) ∷ insert k a rest

abbrev pub Published : Type 0 → Type 0
Published F = Enforcer F × List Output

module _ {F : Type 0} where
  -- `_ack`, with `store=False`
  unfoldable pub note : Enforcer F → StopRequest → Bool → String → Enforcer F
  note n q accepted reason = record n {
    last_requester_id = q.requester_id;
    last_request_id = q.request_id;
    last_request_accepted = accepted;
    last_request_reason = reason;
  }

  unfoldable pub ack : Enforcer F → StopRequest → Bool → String → Enforcer F
  unfolding note
  ack n q accepted reason =
      note
        (record n {
          request_results =
              insert q.requester_id
                (record { request_id = q.request_id; accepted = accepted; reason = reason })
                n.request_results;
        })
        q accepted reason

  -- `request.stopped`: the lock is asserted before the disk is written.
  unfoldable pub assert_stop : Enforcer F → StopRequest → Published F
  unfolding ack
  assert_stop n q =
      let write : Record = record { generation = n.generation + 1; stopped = true } in
      (
        ack
            (record n {
              generation = n.generation + 1;
              stopped = true;
              locked = true;
              clear_at = none;
              zero_seen = false;
              durable = false;
              write = some write;
            })
            q true "STOP_REQUESTED",
        stop_lock true ∷ zero_velocity ∷ submit write ∷ [],
      )

  unfoldable pub begin_clear : Enforcer F → StopRequest → Published F
  unfolding ack
  begin_clear n q =
      let write : Record = record { generation = n.generation + 1; stopped = false } in
      (
        ack (record n { generation = n.generation + 1; durable = false; write = some write }) q true
            "CLEAR_REQUESTED",
        submit write ∷ [],
      )

  unfoldable pub refuse : Enforcer F → StopRequest → String → Published F
  unfolding ack
  refuse n q reason = (ack n q false reason, [])

module _ {F : Type 0} ⦃fl : Float F⦄ where
  unfoldable pub request_clear : Enforcer F → StopRequest → F → Published F
  unfolding refuse begin_clear
  request_clear n q now =
      if not (q.expected_generation == n.generation)
      then refuse n q "STALE_STOP_GENERATION"
      else if is_some n.clear_at
      then refuse n q "CLEAR_PENDING"
      else if str_eq (clear_reason n now) ""
      then begin_clear n q
      else refuse n q (clear_reason n now)

  -- Behind the test for a retry.
  unfoldable pub new_request : Enforcer F → StopRequest → F → Published F
  unfolding refuse assert_stop request_clear
  new_request n q now =
      if not (str_eq q.expected_boot_id "") && not (str_eq q.expected_boot_id n.boot)
      then refuse n q "STALE_EXECUTOR_BOOT"
      else if q.stopped
      then assert_stop n q
      else request_clear n q now

  unfoldable pub repeat_request : Option Answer → Enforcer F → StopRequest → F → Published F
  unfolding ack note new_request
  repeat_request none n q now = new_request n q now
  repeat_request (some a) n q now =
      if q.request_id == a.request_id
      then (ack n q a.accepted a.reason, [])
      else if ltb q.request_id a.request_id
      then (note n q false "STALE_REQUEST_ID", [])
      else new_request n q now

  unfoldable pub request : Enforcer F → StopRequest → F → Published F
  unfolding lookup repeat_request
  request n q now = repeat_request (lookup q.requester_id n.request_results) n q now
