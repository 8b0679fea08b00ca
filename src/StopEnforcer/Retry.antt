-- ===== src/StopEnforcer/Retry.antt =====
-- Retried and outdated STOP requests, and the generation that orders them.
use ros_pre_runner.Prelude.{
  ◌⊎◌, inl, inr, str_eq, ◌&&◌, ℕ, ◌+◌, ◌≤◌, ◌<◌, String, ◌≡◌, refl, ap, ◌&&◌, Bool, true, false,
  not, Option, none, some, List, [], ◌∷◌, arith, is_some, str_eq, if_both, ltb, ◌==◌, Bool-cases,
  inl, inr, eq_refl, eq_iff,
}
use ros_pre_runner.Prelude.Float.{Float}
use ros_pre_runner.StopEnforcer.State.{
  StopRequest, Enforcer, Answer, clear_reason, on_encoder, on_local_control, on_final,
}
use ros_pre_runner.StopEnforcer.Requests.{
  Published, lookup, insert, ack, note, refuse, assert_stop, begin_clear, repeat_request, request,
  new_request, request_clear,
}
use ros_pre_runner.StopEnforcer.Tick.{Worker, settle_write, drain, publish_status, tick}
use ros_pre_runner.StopEnforcer.Invariant.{
  Input, asked, timer, step, run, encoder, local_control, final_command,
}

same_number : (n : ℕ) → (n == n) ≡ true
same_number n = ground arith

lookup-insert :
    (k : String) (a : Answer) (l : List (String × Answer)) → lookup k (insert k a l) ≡ some a
unfolding lookup insert
lookup-insert k a [] = rw (eq_refl k)
lookup-insert k a ((j, b) ∷ rest) = elim (Bool-cases (str_eq j k)) [
  | inl same ↦ rw same (rw (eq_refl k))
  | inr other ↦ rw other (rw other (lookup-insert k a rest))
]

insert_again :
    (k : String) (a : Answer) (l : List (String × Answer))
    → insert k a (insert k a l) ≡ insert k a l
unfolding insert
insert_again k a [] = rw (eq_refl k)
insert_again k a ((j, b) ∷ rest) = elim (Bool-cases (str_eq j k)) [
  | inl same ↦ rw same (rw (eq_refl k))
  | inr other ↦
      rw other (rw other (ap (λ (t : List (String × Answer)). (j, b) ∷ t) (insert_again k a rest)))
]

-- The requester has not asked before, or with a lower request number only.
abbrev pub IsNew : Option Answer → StopRequest → Type 0
IsNew none q = Unit
IsNew (some a) q = a.request_id < q.request_id

module _ {F : Type 0} ⦃fl : Float F⦄ where
  -- A request that changes nothing and publishes nothing.
  abbrev IsNoop : StopRequest → F → Enforcer F → Type 0
  IsNoop q now n = request n q now ≡ (n, [])

  acked-IsNoop :
      (n : Enforcer F) (q : StopRequest) (accepted : Bool) (reason : String) (now : F)
      → IsNoop q now (ack n q accepted reason)
  unfolding request ack
  acked-IsNoop n q accepted reason now =
      let a : Answer = record { request_id = q.request_id; accepted = accepted; reason = reason } in
      rw (lookup-insert q.requester_id a n.request_results) (
        rw (same_number q.request_id) (
          ap
            (λ (l : List (String × Answer)).
              let t : Published F =
                (record (ack n q accepted reason) { request_results = l }, []) in
              t)
            (insert_again q.requester_id a n.request_results)))

  refuse-IsNoop :
      (n : Enforcer F) (q : StopRequest) (reason : String) (later : F)
      → IsNoop q later (refuse n q reason).0
  unfolding refuse
  refuse-IsNoop n q reason later = acked-IsNoop n q false reason later

  assert_stop-IsNoop :
      (n : Enforcer F) (q : StopRequest) (later : F) → IsNoop q later (assert_stop n q).0
  unfolding assert_stop
  assert_stop-IsNoop n q later =
      acked-IsNoop
        (record n {
          generation = n.generation + 1;
          stopped = true;
          locked = true;
          clear_at = none;
          zero_seen = false;
          durable = false;
          write = some (record { generation = n.generation + 1; stopped = true });
        })
        q true "STOP_REQUESTED" later

  begin_clear-IsNoop :
      (n : Enforcer F) (q : StopRequest) (later : F) → IsNoop q later (begin_clear n q).0
  unfolding begin_clear
  begin_clear-IsNoop n q later =
      acked-IsNoop
        (record n {
          generation = n.generation + 1;
          durable = false;
          write = some (record { generation = n.generation + 1; stopped = false });
        })
        q true "CLEAR_REQUESTED" later

  request_clear-IsNoop :
      (n : Enforcer F) (q : StopRequest) (now later : F) → IsNoop q later (request_clear n q now).0
  unfolding request_clear
  request_clear-IsNoop n q now later =
      if_both (λ (t : Published F). IsNoop q later t.0)
        (not (q.expected_generation == n.generation))
        (λ p. refuse-IsNoop n q "STALE_STOP_GENERATION" later)
        λ p.
          if_both (λ (t : Published F). IsNoop q later t.0) (is_some n.clear_at)
            (λ p. refuse-IsNoop n q "CLEAR_PENDING" later)
            λ p.
              if_both (λ (t : Published F). IsNoop q later t.0) (str_eq (clear_reason n now) "")
                (λ p. begin_clear-IsNoop n q later)
                (λ p. refuse-IsNoop n q (clear_reason n now) later)

  new_request-IsNoop :
      (n : Enforcer F) (q : StopRequest) (now later : F) → IsNoop q later (new_request n q now).0
  unfolding new_request
  new_request-IsNoop n q now later =
      if_both (λ (t : Published F). IsNoop q later t.0)
        (not (str_eq q.expected_boot_id "") && not (str_eq q.expected_boot_id n.boot))
        (λ p. refuse-IsNoop n q "STALE_EXECUTOR_BOOT" later)
        λ p.
          if_both (λ (t : Published F). IsNoop q later t.0) q.stopped
            (λ p. assert_stop-IsNoop n q later) (λ p. request_clear-IsNoop n q now later)

  -- A request id below the remembered one is refused as stale, again and again.
  stale-IsNoop :
      (a : Answer) (n : Enforcer F) (q : StopRequest) (later : F)
      → lookup q.requester_id n.request_results ≡ some a
      → (q.request_id == a.request_id) ≡ false
      → ltb q.request_id a.request_id ≡ true
      → IsNoop q later (note n q false "STALE_REQUEST_ID")
  unfolding request note
  stale-IsNoop a n q later known other below = rw known (rw other (rw below))

  repeat_request-IsNoop :
      (o : Option Answer) (n : Enforcer F) (q : StopRequest) (now later : F)
      → lookup q.requester_id n.request_results ≡ o
      → IsNoop q later (repeat_request o n q now).0
  unfolding repeat_request
  repeat_request-IsNoop none n q now later known = new_request-IsNoop n q now later
  repeat_request-IsNoop (some a) n q now later known =
      if_both (λ (t : Published F). IsNoop q later t.0) (q.request_id == a.request_id)
        (λ p. acked-IsNoop n q a.accepted a.reason later)
        λ other.
          if_both (λ (t : Published F). IsNoop q later t.0) (ltb q.request_id a.request_id)
            (λ below. stale-IsNoop a n q later known other below)
            (λ p. new_request-IsNoop n q now later)

  -- Retries are idempotent: whatever the request and its answer, the same request once more, at any
  -- time before another callback, changes nothing at all and publishes nothing.
  pub retry-idempotent :
      (n : Enforcer F) (q : StopRequest) (now later : F)
      → request (request n q now).0 q later ≡ ((request n q now).0, [])
  unfolding request
  retry-idempotent n q now later =
      repeat_request-IsNoop (lookup q.requester_id n.request_results) n q now later refl

  generation-settle_write :
      (n : Enforcer F) (w : Worker) (now : F) → (settle_write n w now).generation ≡ n.generation
  unfolding settle_write
  generation-settle_write n w now = ground arith

  generation-drain : (n : Enforcer F) (now : F) → n.generation ≤ (drain n now).0.generation
  unfolding drain
  generation-drain n now = ground arith

  generation-publish_status :
      (n : Enforcer F) (now : F) → (publish_status n now).0.generation ≡ n.generation
  unfolding publish_status
  generation-publish_status n now = ground arith

  generation-new_request :
      (n : Enforcer F) (q : StopRequest) (now : F)
      → n.generation ≤ (new_request n q now).0.generation
  unfolding new_request
  generation-new_request n q now = ground arith

  generation-repeat_request :
      (a : Option Answer) (n : Enforcer F) (q : StopRequest) (now : F)
      → n.generation ≤ (repeat_request a n q now).0.generation
  unfolding repeat_request
  generation-repeat_request a n q now = ground (arith, generation-new_request n q now)

  generation-step :
      (n : Enforcer F) (i : Input F) (now : F) → n.generation ≤ (step n i now).generation
  unfolding step on_encoder on_local_control on_final request tick
  generation-step n (asked q) now =
      generation-repeat_request (lookup q.requester_id n.request_results) n q now
  generation-step n (timer w) now =
      let n' = settle_write n w now in
      omega (
        arith,
        generation-settle_write n w now,
        generation-drain n' now,
        generation-publish_status (drain n' now).0 now,
      )
  generation-step n (encoder stationary) now = omega arith
  generation-step n (local_control released neutral) now = omega arith
  generation-step n (final_command linear angular) now = ground arith

  generation-run : (n : Enforcer F) (is : List (Input F × F)) → n.generation ≤ (run n is).generation
  unfolding run
  generation-run n [] = omega arith
  generation-run n ((i, now) ∷ rest) =
      omega (arith, generation-step n i now, generation-run (step n i now) rest)

  outdated-new_request :
      (n : Enforcer F) (q : StopRequest) (now : F)
      → q.stopped ≡ false
      → q.expected_generation < n.generation
      → ((new_request n q now).1 ≡ []) × ((new_request n q now).0.write ≡ n.write)
  unfolding new_request
  outdated-new_request n q now s old = ground arith

  outdated-repeat_request :
      (a : Option Answer) (n : Enforcer F) (q : StopRequest) (now : F)
      → q.stopped ≡ false
      → q.expected_generation < n.generation
      → ((repeat_request a n q now).1 ≡ []) × ((repeat_request a n q now).0.write ≡ n.write)
  unfolding repeat_request
  outdated-repeat_request a n q now s old = ground (arith, outdated-new_request n q now)

  -- The request names no boot of the enforcer, or this one.
  abbrev pub NamesBoot : Enforcer F → StopRequest → Type 0
  NamesBoot n q = (q.expected_boot_id ≡ "") ⊎ (q.expected_boot_id ≡ n.boot)

  boot_accepted :
      (n : Enforcer F) (q : StopRequest)
      → NamesBoot n q
      → (not (str_eq q.expected_boot_id "") && not (str_eq q.expected_boot_id n.boot)) ≡ false
  boot_accepted n q (inl e) = let h = (eq_iff q.expected_boot_id "").1 e in ground arith
  boot_accepted n q (inr e) = let h = (eq_iff q.expected_boot_id n.boot).1 e in ground arith

  generation-stop :
      (n : Enforcer F) (q : StopRequest) (now : F)
      → NamesBoot n q
      → q.stopped ≡ true
      → n.generation < (new_request n q now).0.generation
  unfolding new_request
  generation-stop n q now boot s = let h = boot_accepted n q boot in ground arith

  generation-taken_up :
      (n : Enforcer F) (q : StopRequest) (a : Option Answer) (now : F)
      → IsNew a q
      → NamesBoot n q
      → q.stopped ≡ true
      → n.generation < (repeat_request a n q now).0.generation
  unfolding repeat_request
  generation-taken_up n q none now fresh boot s = generation-stop n q now boot s
  generation-taken_up n q (some a) now fresh boot s =
      let h = generation-stop n q now boot s in ground arith

  -- A STOP fences off the clears before it. Let a STOP request be new (its requester has not asked before,
  -- or with lower request numbers only) and name no boot of the enforcer or this one. Once it is received,
  -- a clear request that expects the generation before that STOP, or an older one, writes nothing and
  -- publishes nothing, whatever happened in between.
  pub stop-fences_clears :
      (n : Enforcer F) (stop clear : StopRequest) (is : List (Input F × F)) (now later : F)
      → IsNew (lookup stop.requester_id n.request_results) stop
      → NamesBoot n stop
      → stop.stopped ≡ true
      → clear.stopped ≡ false
      → clear.expected_generation ≤ n.generation
      → let m = run n ((asked stop, now) ∷ is) in
        ((request m clear later).1 ≡ []) × ((request m clear later).0.write ≡ m.write)
  unfolding run step request
  stop-fences_clears n stop clear is now later fresh boot s c old =
      let a = lookup stop.requester_id n.request_results in
      let n' = (repeat_request a n stop now).0 in
      let m = run n' is in
      outdated-repeat_request (lookup clear.requester_id m.request_results) m clear later c
        (omega (arith, generation-run n' is, generation-taken_up n stop a now fresh boot s))
