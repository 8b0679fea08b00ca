-- ===== src/ModeRuntime/Text.antt =====
-- Texts of src/runner_paddock/runner_paddock/mode_runtime.py: concatenation and `join`.
use Prim.Native.String.{◌++◌ as text_append}
use ros_pre_runner.Prelude.{String, List, [], ◌∷◌}

-- Adjacent pieces of an f-string.
infixr 65 ◌<>◌
abbrev pub ◌<>◌ : String → String → String
s <> t = text_append s t

-- `separator.join(items)`
unfoldable pub join : String → List String → String
join separator [] = ""
join separator (item ∷ []) = item
join separator (item ∷ other ∷ rest) = item <> separator <> join separator (other ∷ rest)
