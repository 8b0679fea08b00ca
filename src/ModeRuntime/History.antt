-- ===== src/ModeRuntime/History.antt =====
-- Any history of calls on the runtime of src/runner_paddock/runner_paddock/mode_runtime.py.
use ros_pre_runner.Prelude.{
  inr, inl, ◌+◌, leb, ℕ, ◌≤◌, ◌≡◌, ◌≢◌, refl, ap, sym, ◌⊎◌, String, true, false, Option, none, some,
  List, [], ◌∷◌, arith,
}
use mathlib.Core.Path.{subst}
use ros_pre_runner.StateMachine.{Mode, idle}
use ros_pre_runner.ModeRuntime.State.{stable, RuntimeState}
use ros_pre_runner.ModeRuntime.View.{raised, ok, Outcome, View}
use ros_pre_runner.ModeRuntime.Run.{published, Runtime}
use ros_pre_runner.ModeRuntime.Triple.{Post, Triple}
use ros_pre_runner.ModeRuntime.Change.{Operation, Surroundings, refresh, transition}
use ros_pre_runner.ModeRuntime.Reconcile.{Survey, reconcile}
use ros_pre_runner.ModeRuntime.Order.{IsOrdered}
use ros_pre_runner.ModeRuntime.Settle.{IsSettled, Never}
use ros_pre_runner.ModeRuntime.Transition.{EscapesNew, Responds, request_after, transition-Responds}
use ros_pre_runner.ModeRuntime.Known.{IsKnown, readiness_of-IsKnown}
use ros_pre_runner.ModeRuntime.Refreshed.{readiness_of, Refreshes, Unchanged, refresh-readiness_of}
use ros_pre_runner.ModeRuntime.Reconciled.{IsReconciled, reconcile-IsReconciled}

-- From a settled runtime, every request is answered with its own new snapshot, which is settled
-- again, with every start of a unit after a complete stop, with the number of the request if that is
-- a new one that names a mode, and with the same epoch or, then stable, the next one. The request
-- raises only if it is new and the look at the runtime after a refused NEW MAP raises; the runtime is
-- then left in transition.
pub transition-IsSettled :
    (w : Surroundings) (requested : Option Mode) (request_id : ℕ) (map : String)
    (operation : Operation) (r : Runtime)
    → IsOrdered r.actions
    → IsSettled r.state
    → Post
        (Responds IsSettled r.state (request_after requested request_id r.state))
        (EscapesNew w r.state request_id)
        (transition w requested request_id map operation r)
unfolding Triple
transition-IsSettled w requested request_id map operation r q h =
    transition-Responds IsSettled (λ t k. k) (λ t n k. k) (λ t d k. k) w r.state request_id h
      requested map operation r (q, refl)

-- From any snapshot, `reconcile` returns and never raises: the new snapshot is settled, the
-- starts of units stay guarded, the last accepted request is the old one, and the epoch is
-- no lower.
pub reconcile-IsSettled :
    (w : Survey) (r : Runtime)
    → IsOrdered r.actions
    → Post (IsReconciled r.state) Never (reconcile w r)
unfolding Triple
reconcile-IsSettled w r q = reconcile-IsReconciled r.state w r (q, omega arith, refl)

pub data RuntimeCall : Type 0 where
  request : Surroundings → Option Mode → ℕ → String → Operation → RuntimeCall
  timer : View → RuntimeCall
  survey : Survey → RuntimeCall

-- What one call leaves, whether it returns or raises.
abbrev pub call : RuntimeCall → Runtime → Runtime
call (request w requested request_id map operation) r =
    (transition w requested request_id map operation r).1
call (timer v) r = (refresh v r).1
call (survey w) r = (reconcile w r).1

abbrev pub run : List RuntimeCall → Runtime → Runtime
run [] r = r
run (c ∷ cs) r = run cs (call c r)

-- The runtime as it is constructed.
abbrev pub boot : Runtime
boot = record {
  state = record {
    mode = idle;
    lifecycle = stable;
    accepted_request_id = 0;
    active_autonomy_map = "";
    detail = "";
    runtime_epoch = 0;
    mapping_session_id = "";
    ready = true;
    readiness_reason = "";
  };
  actions = [];
}

-- What holds of a runtime between two calls: guarded, known, and no lower numbers than before.
abbrev pub Grows : RuntimeState → Runtime → Type 0
Grows s r =
    IsOrdered r.actions
    × IsKnown r.state
    × (s.accepted_request_id ≤ r.state.accepted_request_id)
    × (s.runtime_epoch ≤ r.state.runtime_epoch)

request_after_le :
    (requested : Option Mode) (n : ℕ) (s : RuntimeState)
    → s.accepted_request_id ≤ request_after requested n s
request_after_le none n s = omega arith
request_after_le (some m) n s = ground arith

late_request : (m n p : ℕ) → p ≡ n → leb n m ≡ false → m ≤ p
late_request m n p e h = ground arith

module _ (s : RuntimeState) where
  answered-Grows :
      (w : Surroundings) (requested : Option Mode) (n : ℕ) (o : Outcome RuntimeState × Runtime)
      → Post (Responds IsKnown s (request_after requested n s)) (EscapesNew w s n) o
      → Grows s o.1
  answered-Grows w requested n (ok t, r) (q, e, k, a, b) =
      let above = request_after_le requested n s in
      let epoch = by_epoch b in
      (
        q,
        subst IsKnown e k,
        subst (λ u. s.accepted_request_id ≤ u.accepted_request_id) e (omega arith),
        subst (λ u. s.runtime_epoch ≤ u.runtime_epoch) e epoch,
      )
    where
      by_epoch :
          ((t.runtime_epoch ≡ s.runtime_epoch)
            ⊎ ((t.lifecycle ≡ stable) × (t.runtime_epoch ≡ s.runtime_epoch + 1)))
          → s.runtime_epoch ≤ t.runtime_epoch
      by_epoch (inl d) = omega arith
      by_epoch (inr (_, d)) = omega arith
  answered-Grows w requested n (raised e, r) ((q, c, _), h) =
      let kept = ap (λ u. u.runtime_epoch) c in
      (
        q,
        inr (ap (λ u. u.lifecycle) c, ap (λ u. u.ready) c, ap (λ u. u.mapping_session_id) c),
        late_request _ n _ (ap (λ u. u.accepted_request_id) c) h,
        omega (arith, kept),
      )

  reconciled-Grows :
      (o : Outcome RuntimeState × Runtime) → Post (IsReconciled s) Never o → Grows s o.1
  reconciled-Grows (ok t, r) (q, e, k, a, b) = (
    q,
    subst IsKnown e (inl k),
    subst (λ u. s.accepted_request_id ≤ u.accepted_request_id) e (omega arith),
    subst (λ u. s.runtime_epoch ≤ u.runtime_epoch) e b,
  )
  reconciled-Grows (raised e, r) p = absurd p

refreshed-Grows :
    (v : View) (r : Runtime) (o : Outcome RuntimeState × Runtime)
    → IsOrdered r.actions
    → IsKnown r.state
    → Post (Refreshes (readiness_of v r.state) r) (Unchanged (readiness_of v r.state) r) o
    → Grows r.state o.1
refreshed-Grows v r (ok t, r') q k (h, e, c) =
    let (known, a, b) = readiness_of-IsKnown v r.state t k h in
    (
      guarded c,
      subst IsKnown e known,
      subst (λ u. r.state.accepted_request_id ≤ u.accepted_request_id) e (omega arith),
      subst (λ u. r.state.runtime_epoch ≤ u.runtime_epoch) e (omega arith),
    )
  where
    guarded :
        ((r' ≡ r) ⊎ ((r'.actions ≡ published t ∷ r.actions) × (t ≢ r.state))) → IsOrdered r'.actions
    guarded (inl d) = subst (λ x. IsOrdered x.actions) (sym d) q
    guarded (inr (d, _)) = subst IsOrdered (sym d) q
refreshed-Grows v r (raised x, r') q k (h, e) =
    subst (Grows r.state) (sym e) (q, k, omega arith, omega arith)

-- One call, whatever it meets and whether it returns or raises, keeps every start of a unit after a
-- complete stop and the snapshot known; the last accepted request and the epoch never fall.
pub call-Grows :
    (c : RuntimeCall) (r : Runtime)
    → IsOrdered r.actions
    → IsKnown r.state
    → Grows r.state (call c r)
unfolding Triple
call-Grows (request w requested n map operation) r q k =
    answered-Grows r.state w requested n (transition w requested n map operation r) (
      transition-Responds IsKnown (λ t h. inl h) (λ t m h. h) (λ t d h. h) w r.state n k requested
        map operation r (q, refl))
call-Grows (timer v) r q k = refreshed-Grows v r (refresh v r) q k (refresh-readiness_of r v)
call-Grows (survey w) r q k = reconciled-Grows r.state (reconcile w r) (reconcile-IsSettled w r q)

-- After any history of requests, refreshes and reconciliations of a fresh runtime, every start of a
-- unit came, since the start before it, after both units were told to stop, then seen empty, and then
-- the graph seen without their nodes; and the snapshot is settled, or in transition, not ready and
-- without a session.
pub run-IsOrdered :
    (cs : List RuntimeCall) → IsOrdered (run cs boot).actions × IsKnown (run cs boot).state
run-IsOrdered cs = from_any cs boot tt (inl (inl (refl, inl (refl, refl, refl))))
  where
    from_any :
        (ds : List RuntimeCall) (r : Runtime)
        → IsOrdered r.actions
        → IsKnown r.state
        → IsOrdered (run ds r).actions × IsKnown (run ds r).state
    from_any [] r q k = (q, k)
    from_any (d ∷ ds) r q k =
        let (q', k', _, _) = call-Grows d r q k in from_any ds (call d r) q' k'
