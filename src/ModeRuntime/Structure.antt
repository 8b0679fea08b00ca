-- ===== src/ModeRuntime/Structure.antt =====
-- When src/runner_paddock/runner_paddock/mode_runtime.py finds no structural reason against a mode.
use ros_pre_runner.Prelude.{
  ◌≤◌, ◌≡◌, ◌≢◌, ◌↔◌, refl, ap, String, Bool, true, false, not, List, [], ◌∷◌, ◌==◌, ◌≤◌,
  if◌then◌else◌, arith, if_both,
}
use text.Mathlib.TextLemmas.{append-eq-nil_iff}
use ros_pre_runner.StateMachine.{Mode}
use ros_pre_runner.ModeRuntime.Text.{◌<>◌}
use ros_pre_runner.ModeRuntime.State.{
  UnitState, unit_active, required_nodes, forbidden_nodes, unit_of, unit_name, ModeUnit,
  mapping_unit, autonomy_unit,
}
use ros_pre_runner.ModeRuntime.View.{ok, View, filter_nodes, named, graph_reason, structural_reason}
use ros_pre_runner.ModeRuntime.Clean.{bind-ok, ok-injective}

-- Every name of a list is in the graph, or none of them.
abbrev pub AllPresent : View → List String → Type 0
AllPresent v [] = Unit {0}
AllPresent v (node ∷ rest) = (1 ≤ v.count node) × AllPresent v rest

abbrev pub NonePresent : View → List String → Type 0
NonePresent v [] = Unit {0}
NonePresent v (node ∷ rest) = (v.count node ≡ 0) × NonePresent v rest

prefixed : (s t : String) → s ≢ "" → (s <> t) ≢ ""
prefixed s t n h = n ((append-eq-nil_iff {p = s} {q = t}).0 h).0

-- A list of names gives no reason when it is empty and the later reason is.
named-≡ :
    (prefix : String) (nodes : List String) (later : String)
    → prefix ≢ ""
    → ((named prefix nodes later ≡ "") ↔ ((nodes ≡ []) × (later ≡ "")))
named-≡ prefix [] later n = (λ h. (refl, h), λ p. p.1)
named-≡ prefix (node ∷ rest) later n = (λ h. absurd (prefixed prefix _ n h), λ p. absurd (cc))

missing-AllPresent :
    (v : View) (nodes : List String)
    → (filter_nodes (λ node. v.count node == 0) nodes ≡ []) ↔ AllPresent v nodes
missing-AllPresent v [] = (λ _. tt, λ _. refl)
missing-AllPresent v (node ∷ rest) =
    let (f, g) = missing-AllPresent v rest in
    if_both (λ l. (l ≡ []) ↔ ((1 ≤ v.count node) × AllPresent v rest)) (v.count node == 0)
      (λ h. (λ e. absurd (cc), λ p. absurd (none_there p.0 h)))
      (λ h. (λ e. (ground arith, f e), λ p. g p.1))
  where
    none_there : 1 ≤ v.count node → (v.count node == 0) ≡ true → ⊥
    none_there p h = ground arith

forbidden-NonePresent :
    (v : View) (nodes : List String)
    → (filter_nodes (λ node. not (v.count node == 0)) nodes ≡ []) ↔ NonePresent v nodes
forbidden-NonePresent v [] = (λ _. tt, λ _. refl)
forbidden-NonePresent v (node ∷ rest) =
    let (f, g) = forbidden-NonePresent v rest in
    if_both (λ l. (l ≡ []) ↔ ((v.count node ≡ 0) × NonePresent v rest)) (not (v.count node == 0))
      (λ h. (λ e. absurd (cc), λ p. absurd (some_there p.0 h)))
      (λ h. (λ e. (ground arith, f e), λ p. g p.1))
  where
    some_there : v.count node ≡ 0 → not (v.count node == 0) ≡ true → ⊥
    some_there p h = ground arith

-- The right graph for a mode: its nodes, none that it forbids, and single owners.
abbrev pub IsComplete : View → Mode → Type 0
IsComplete v mode =
    AllPresent v (required_nodes mode)
    × NonePresent v (forbidden_nodes mode)
    × (v.owned mode ≡ true)

owned-≡ :
    (b : Bool)
    → let reason : String = if b then "" else "single-writer ownership check failed" in
      (reason ≡ "") ↔ (b ≡ true)
owned-≡ true = (λ _. refl, λ _. refl)
owned-≡ false = (λ h. absurd (cc), λ h. absurd (cc))

unexpected_text : let text : String = "unexpected node(s): " in text ≢ ""
unexpected_text h = absurd (cc)

missing_text : let text : String = "missing node(s): " in text ≢ ""
missing_text h = absurd (cc)

graph_reason-IsComplete : (v : View) (mode : Mode) → (graph_reason v mode ≡ "") ↔ IsComplete v mode
unfolding graph_reason
graph_reason-IsComplete v mode =
    let (a, a') = missing-AllPresent v (required_nodes mode) in
    let (b, b') = forbidden-NonePresent v (forbidden_nodes mode) in
    let (c, c') = owned-≡ (v.owned mode) in
    let (d, d') =
      named-≡ "unexpected node(s): " (filter_nodes _ (forbidden_nodes mode)) _ unexpected_text in
    let (e, e') =
      named-≡ "missing node(s): " (filter_nodes _ (required_nodes mode)) _ missing_text in
    (
      λ h.
          let (missing, rest) = e h in
          let (forbidden, owned) = d rest in (a missing, b forbidden, c owned),
      λ p. e' (a' p.0, d' (b' p.1, c' p.2)),
    )

-- No structural reason is given against a mode just when its unit is known to be active and running
-- and the graph is the right one: every required node is there, no forbidden one is, and the owners
-- are single.
pub structural_reason_exact :
    (v : View) (mode : Mode)
    → (structural_reason v mode ≡ ok "") ↔ (
        (u : UnitState) × (v.state (unit_of mode) ≡ ok u)
        × (unit_active u ≡ true)
        × IsComplete v mode)
unfolding structural_reason
structural_reason_exact v mode = (forward, backward)
  where
    inactive : (unit : ModeUnit) → (unit_name unit <> " is not active/running") ≢ ""
    inactive mapping_unit =
        prefixed "runner-mode-mapping.service" " is not active/running" (λ h. absurd (cc))
    inactive autonomy_unit =
        prefixed "runner-mode-autonomy.service" " is not active/running" (λ h. absurd (cc))

    forward :
        structural_reason v mode ≡ ok ""
        → (u : UnitState) × (v.state (unit_of mode) ≡ ok u)
          × (unit_active u ≡ true)
          × IsComplete v mode
    forward h =
        let (u, e, f) = bind-ok (v.state (unit_of mode)) _ "" h in
        let (a, c) =
          if_both (λ t. t ≡ "" → (unit_active u ≡ true) × IsComplete v mode) (unit_active u)
            (λ a g. (a, (graph_reason-IsComplete v mode).0 g))
            (λ _ g. absurd (inactive (unit_of mode) g)) (ok-injective f) in
        (u, e, a, c)

    backward :
        (u : UnitState) × (v.state (unit_of mode) ≡ ok u)
          × (unit_active u ≡ true)
          × IsComplete v mode
        → structural_reason v mode ≡ ok ""
    backward (u, e, a, c) = rw e (rw a (ap ok ((graph_reason-IsComplete v mode).1 c)))
