-- ===== src/Definition.antt =====
-- The look-ups of xtce_sim/definition.py: commands by name and opcode, and labels of enumerations.
pub mod Enumerations
pub mod Dispatch
use xtce_sim.Prelude.{ℕ, List, [], ◌∷◌, Option, none, some, Bool, ◌==◌, if◌then◌else◌}
use xtce_sim.Prelude.Equality.{Eq, list_eq, list_beq}
use xtce_sim.Prelude.Dict
use xtce_sim.Prelude.Dict.{Dict}
use xtce_sim.Utf8.{Text}
use xtce_sim.Schema.{CommandDef}

-- `SimDefinition.command_by_name`
unfoldable pub command_by_name : List CommandDef → Text → Option CommandDef
command_by_name [] name = none
command_by_name (c ∷ cs) name = if list_beq c.name name then some c else command_by_name cs name

-- `SimDefinition.command_by_opcode`
unfoldable pub command_by_opcode : List CommandDef → ℕ → Option CommandDef
command_by_opcode [] opcode = none
command_by_opcode (c ∷ cs) opcode =
    if c.opcode == opcode then some c else command_by_opcode cs opcode

-- A decoded enum argument, whose numbers are of any type with a test of equality: a bool, a label, a
-- raw value, or a value of another type.
pub data Decoded (V : Type 0) : Type 0 where
  flag : Bool → Decoded V
  label : Text → Decoded V
  raw : V → Decoded V
  foreign : Decoded V

module _ {V : Type 0} ⦃e : Eq V⦄ where
  unfoldable pub label_for : Dict Text V → V → Option Text
  label_for [] value = none
  label_for ((k, v) ∷ enumerations) value =
      if e.beq v value then some k else label_for enumerations value

  unfoldable pub resolve_enum_arg : Dict Text V → Decoded V → Option (Text × V)
  resolve_enum_arg enumerations (flag b) = none
  resolve_enum_arg enumerations (label l) = elim (Dict.get enumerations l) [
    | none ↦ none
    | some value ↦ some (l, value)
  ]
  resolve_enum_arg enumerations (raw value) = elim (label_for enumerations value) [
    | none ↦ none
    | some l ↦ some (l, value)
  ]
  resolve_enum_arg enumerations foreign = none
