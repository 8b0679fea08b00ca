-- ===== src/StopEnforcer/Tick.antt =====
-- `tick` of src/runner_paddock/runner_paddock/stop_enforcer.py: the write's end, the clear's drain, the
-- lock and zero publications at 50 Hz, and the status with its heartbeat.
use ros_pre_runner.Prelude.{
  ◌+◌, String, Bool, true, false, not, ◌&&◌, Option, none, some, List, [], ◌∷◌, ◌++◌, is_some,
  str_eq, ◌==◌, if◌then◌else◌,
}
use ros_pre_runner.Prelude.Float.{Float}
use ros_pre_runner.StopEnforcer.State.{
  healthy, persistence_failed, fault_text, faulty, Record, StopState, Enforcer, Output, stop_lock,
  zero_velocity, stop_state, submit, clear_reason,
}
use ros_pre_runner.StopEnforcer.Restore.{drain_time}
use ros_pre_runner.StopEnforcer.Requests.{Published}

-- What the worker has made of the write that is pending: `future.done()` and `future.result()`.
pub data Worker : Type 0 where
  running succeeded : Worker
  failed : String → Worker

abbrev bool_eq : Bool → Bool → Bool
bool_eq true b = b
bool_eq false b = not b

-- `==` of two `_state_key`s
same_key : StopState → StopState → Bool
same_key a b =
    str_eq a.boot_id b.boot_id
    && (a.generation == b.generation
        && (bool_eq a.stopped b.stopped
            && (bool_eq a.locked b.locked
                && (bool_eq a.is_healthy b.is_healthy
                    && (bool_eq a.applied b.applied
                        && (bool_eq a.clear_pending b.clear_pending
                            && (str_eq a.reason b.reason
                                && (str_eq a.last_requester_id b.last_requester_id
                                    && (a.last_request_id == b.last_request_id
                                        && (bool_eq a.last_request_accepted b.last_request_accepted
                                            && str_eq a.last_request_reason
                                                b.last_request_reason))))))))))

unfoldable pub unchanged : Option StopState → StopState → Bool
unfolding same_key
unchanged none key = false
unchanged (some last) key = same_key key last

module _ {F : Type 0} ⦃fl : Float F⦄ where
  -- The write succeeded.
  written : Enforcer F → Record → F → Enforcer F
  written n r now =
      if r.generation == n.generation
      then (let n' = record n { durable = true; fault = healthy } in
          if not r.stopped then record n' { clear_at = some (fl.add now drain_time) } else n')
      else n

  unfoldable pub settle_record : Enforcer F → Record → Worker → F → Enforcer F
  unfolding written
  settle_record n r running now = n
  settle_record n r succeeded now = written (record n { write = none }) r now
  settle_record n r (failed error) now = record n {
    write = none;
    fault = persistence_failed error;
    locked = true;
    stopped = true;
  }

  -- `if self.write and self.write.done(): ...`
  unfoldable pub settle_write : Enforcer F → Worker → F → Enforcer F
  unfolding settle_record
  settle_write n w now = elim n.write [ none ↦ n | some r ↦ settle_record n r w now ]

  -- `if self.clear_at is not None: ...`, at the end of the drain `at`
  unfoldable pub drain_until : F → Enforcer F → F → Published F
  drain_until at n now =
      if n.stopped && not (str_eq (clear_reason n now) "")
      then (let write : Record = record { generation = n.generation + 1; stopped = true } in
          (
            record n {
              generation = n.generation + 1;
              stopped = true;
              locked = true;
              durable = false;
              clear_at = none;
              write = some write;
            },
            submit write ∷ [],
          ))
      else if fl.le at now
      then (record n { stopped = false; locked = false; clear_at = none }, [])
      else (n, [])

  unfoldable pub drain_at : Option F → Enforcer F → F → Published F
  unfolding drain_until
  drain_at none n now = (n, [])
  drain_at (some at) n now = drain_until at n now

  unfoldable pub drain : Enforcer F → F → Published F
  unfolding drain_at
  drain n now = drain_at n.clear_at n now

  -- `self.final_at is not None and now - self.final_at <= 0.10`
  final_fresh : Option F → F → Bool
  final_fresh none now = false
  final_fresh (some at) now = fl.le (fl.sub now at) (fl.lit 10 100)

  unfoldable pub is_applied : Enforcer F → F → Bool
  unfolding final_fresh
  is_applied n now =
      n.stopped && (n.locked && (n.durable && (n.zero_seen && final_fresh n.final_at now)))

  reason_of : Enforcer F → F → String
  reason_of n now =
      if faulty n.fault
      then fault_text n.fault
      else if is_applied n now
      then "STOP_APPLIED"
      else if not n.locked
      then "CLEAR"
      else "STOP_PENDING"

  unfoldable pub status : Enforcer F → F → StopState
  unfolding is_applied reason_of
  status n now = record {
    boot_id = n.boot;
    generation = n.generation;
    stopped = n.stopped;
    locked = n.locked;
    is_healthy = not (faulty n.fault);
    applied = is_applied n now;
    clear_pending = is_some n.clear_at;
    reason = reason_of n now;
    last_requester_id = n.last_requester_id;
    last_request_id = n.last_request_id;
    last_request_accepted = n.last_request_accepted;
    last_request_reason = n.last_request_reason;
  }

  -- `last is None or now - last >= STATE_HEARTBEAT_PERIOD`
  unfoldable pub due : Option F → F → Bool
  due none now = true
  due (some last) now = fl.le (fl.lit 5 100) (fl.sub now last)

  enforce : Enforcer F → List Output
  enforce n =
      stop_lock n.locked ∷ (if n.locked && not (is_some n.clear_at) then zero_velocity ∷ [] else [])

  unfoldable pub publish_status : Enforcer F → F → Published F
  unfolding status unchanged same_key due
  publish_status n now =
      let key = status n now in
      if unchanged n.last_state_key key && not (due n.last_state_publish_at now) then (n, []) else (
        record n { last_state_key = some key; last_state_publish_at = some now },
        stop_state key ∷ [],
      )

  unfoldable pub tick : Enforcer F → Worker → F → Published F
  unfolding settle_write drain enforce publish_status
  tick n w now =
      let (n', submitted) = drain (settle_write n w now) now in
      let (n'', published) = publish_status n' now in (n'', submitted ++ (enforce n' ++ published))
