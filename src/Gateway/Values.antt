-- ===== src/Gateway/Values.antt =====
-- What an action of src/runner_paddock/runner_paddock/gateway.py is made of: the values of `json.loads`, and
-- what Python's built-in functions make of them.
use ros_pre_runner.Prelude.{
  String, str_eq, Bool, true, false, not, Option, none, some, if◌then◌else◌,
}
use ros_pre_runner.Prelude.Int.{ℤ, pos}
use ros_pre_runner.Prelude.Float.{Float, zero_f}
use ros_pre_runner.Prelude.{zero}

mutual
  pub data Json (F : Type 0) : Type 0 where
    null : Json F
    boolean : Bool → Json F
    integer : ℤ → Json F
    number : F → Json F
    text : String → Json F
    array : Items F → Json F
    object : Fields F → Json F

  pub data Items (F : Type 0) : Type 0 where
    no_items : Items F
    item : Json F → Items F → Items F

  -- A dictionary, with each key once.
  pub data Fields (F : Type 0) : Type 0 where
    no_fields : Fields F
    field : String → Json F → Fields F → Fields F

-- A conversion: its value, a KeyError, TypeError or ValueError, or an OverflowError.
pub data Converted {ℓ} (A : Type ℓ) : Type ℓ where
  converted : A → Converted A
  invalid overflow : Converted A

infixl 5 ◌>>=◌
abbrev pub ◌>>=◌ {ℓ κ} : {A : Type ℓ} {B : Type κ} → Converted A → (A → Converted B) → Converted B
converted a >>= f = f a
invalid >>= f = invalid
overflow >>= f = overflow

-- `str` of a value that is no text, `float`, `int`, `strip`, `lower`, and the format `.2f`.
pub record Builtins (F : Type 0) : Type 0 where
  pub show : Json F → String
  pub to_float : Json F → Converted F
  pub to_int : Json F → Converted ℤ
  pub strip : String → String
  pub lower : String → String
  pub fixed2 : F → String

abbrev is_zero : ℤ → Bool
is_zero (pos zero) = true
is_zero z = false

module _ {F : Type 0} where
  -- `action.get(key)`
  unfoldable pub get : Fields F → String → Option (Json F)
  get no_fields key = none
  get (field name v rest) key = if str_eq name key then some v else get rest key

  -- `isinstance` tests
  abbrev pub as_boolean : Option (Json F) → Option Bool
  as_boolean (some (boolean b)) = some b
  as_boolean _ = none

  abbrev pub as_text : Option (Json F) → Option String
  as_text (some (text t)) = some t
  as_text _ = none

  -- `action.get(key, {})` where it is an object
  abbrev pub as_object : Option (Json F) → Option (Fields F)
  as_object none = some no_fields
  as_object (some (object o)) = some o
  as_object (some _) = none

  module _ (b : Builtins F) where
    abbrev pub str : Json F → String
    str (text t) = t
    str v = b.show v

    -- `str(action.get(key, default))`
    abbrev pub str_or : String → Option (Json F) → String
    str_or default none = default
    str_or default (some v) = str v

    abbrev pub float_of : Option (Json F) → Converted F
    float_of none = invalid
    float_of (some v) = b.to_float v

    -- `float(action.get(key, default))`, of a float
    abbrev pub float_or : F → Option (Json F) → Converted F
    float_or default none = converted default
    float_or default (some v) = b.to_float v

    abbrev pub int_of : Option (Json F) → Converted ℤ
    int_of none = invalid
    int_of (some v) = b.to_int v

  module _ ⦃fl : Float F⦄ where
    -- `bool(action.get(key))`
    unfoldable pub truthy : Option (Json F) → Bool
    truthy none = false
    truthy (some null) = false
    truthy (some (boolean b)) = b
    truthy (some (integer z)) = not (is_zero z)
    truthy (some (number x)) = not (fl.eq x zero_f)
    truthy (some (text t)) = not (str_eq t "")
    truthy (some (array no_items)) = false
    truthy (some (array (item v vs))) = true
    truthy (some (object no_fields)) = false
    truthy (some (object (field k v rest))) = true
