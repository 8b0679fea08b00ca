-- ===== src/StateMachine/Ownership.antt =====
-- The control lease of `transition`: who may change the state, and how the generation fences leases.
use ros_pre_runner.Prelude.{
  ℕ, ◌+◌, ◌≤◌, String, ◌≡◌, refl, Bool, true, false, not, ◌&&◌, List, [], ◌∷◌, arith, str_eq,
  eq_iff, eq_refl, if◌then◌else◌,
}
use ros_pre_runner.StateMachine.State.{
  Event, acquire_lease, release_lease, lose_lease, dualsense_active, dualsense_inactive,
  set_active_map, restart, PaddockState, lease_active,
}
use ros_pre_runner.StateMachine.Events.{
  on_drop_lease, on_acquire_lease, keep, owns_lease, Inputs, transition,
}
use ros_pre_runner.StateMachine.Invariant.{run}

-- The events that only the owner of the lease may cause.
abbrev pub is_owner_event : Event → Bool
is_owner_event acquire_lease = false
is_owner_event dualsense_active = false
is_owner_event dualsense_inactive = false
is_owner_event set_active_map = false
is_owner_event restart = false
is_owner_event _ = true

abbrev pub is_restart : Event → Bool
is_restart restart = true
is_restart _ = false

-- One for a change of the lease, none otherwise.
abbrev pub fence : String → String → ℕ
fence old new = if str_eq new old then 0 else 1

module _ {F : Type 0} where
  -- An event that needs the lease, with another lease id or with no lease held, changes nothing and
  -- has no effect.
  pub not_owner-keep :
      (s : PaddockState F) (e : Event) (i : Inputs F)
      → is_owner_event e ≡ true
      → owns_lease s i.lease_id ≡ false
      → transition s e i ≡ keep s
  unfolding transition
  not_owner-keep s e i k h = ground arith

  pub record IsFenced (s t : PaddockState F) : Type 0 where
    pub counted : t.lease_generation ≡ s.lease_generation + fence s.lease_id t.lease_id

  same_lease-IsFenced :
      (s t : PaddockState F)
      → t.lease_id ≡ s.lease_id
      → t.lease_generation ≡ s.lease_generation
      → IsFenced s t
  same_lease-IsFenced s t l g = ground (arith, eq_iff t.lease_id s.lease_id)

  on_acquire_lease-IsFenced :
      (s : PaddockState F) (c l : String) → IsFenced s (on_acquire_lease s c l).state
  unfolding on_acquire_lease lease_active
  on_acquire_lease-IsFenced s c l =
      ground (arith, eq_iff s.lease_id "", eq_iff l s.lease_id, eq_iff l "", eq_refl s.lease_id)

  on_drop_lease-IsFenced : (s : PaddockState F) (l : String) → IsFenced s (on_drop_lease s l).state
  unfolding on_drop_lease lease_active
  on_drop_lease-IsFenced s l =
      ground (arith, eq_iff s.lease_id "", eq_iff "" s.lease_id, eq_refl s.lease_id)

  -- Outside a restart, an event raises the lease generation by one if it grants or drops a lease, and
  -- leaves it alone if the lease stays.
  pub transition-IsFenced :
      (s : PaddockState F) (e : Event) (i : Inputs F)
      → is_restart e ≡ false
      → IsFenced s (transition s e i).state
  unfolding transition
  transition-IsFenced s acquire_lease i n = on_acquire_lease-IsFenced s i.client_id i.lease_id
  transition-IsFenced s release_lease i n = on_drop_lease-IsFenced s i.lease_id
  transition-IsFenced s lose_lease i n = on_drop_lease-IsFenced s i.lease_id
  transition-IsFenced s restart i n = absurd (cc)
  transition-IsFenced s e i n =
      same_lease-IsFenced s (transition s e i).state (ground arith) (ground arith)

  abbrev pub never_restarts : List (Event × Inputs F) → Bool
  never_restarts [] = true
  never_restarts ((e, i) ∷ rest) = not (is_restart e) && never_restarts rest

  -- The lease generation never falls over any events without a restart.
  generation_grows :
      (s : PaddockState F) (es : List (Event × Inputs F))
      → never_restarts es ≡ true
      → s.lease_generation ≤ (run s es).lease_generation
  unfolding run
  generation_grows s [] n = omega arith
  generation_grows s ((e, i) ∷ rest) n =
      let t = (transition s e i).state in
      ground
        (arith, transition-IsFenced s e i (ground arith), generation_grows t rest (ground arith))

  -- The generation identifies the lease: where, over any events without a restart, it is the same
  -- before and after, so is the lease.
  pub generation_identifies :
      (s : PaddockState F) (es : List (Event × Inputs F))
      → never_restarts es ≡ true
      → (run s es).lease_generation ≡ s.lease_generation
      → (run s es).lease_id ≡ s.lease_id
  unfolding run
  generation_identifies s [] n h = refl
  generation_identifies s ((e, i) ∷ rest) n h =
      let t = (transition s e i).state in
      ground (
        arith,
        transition-IsFenced s e i (ground arith),
        generation_grows t rest (ground arith),
        generation_identifies t rest (ground arith),
        eq_iff t.lease_id s.lease_id,
      )
