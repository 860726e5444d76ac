-- ===== src/Tests/Generate.antt =====
-- The theorems on xtce_sim/generate.py and xtce_sim/definition.py at concrete inputs: an opcode of the
-- definition, and a command without one.
use xtce_sim.Prelude.{
  inr, inl, ℕ, ap, arith, ◌≡◌, ◌≢◌, refl, List, [], ◌∷◌, none, some, true, false, ok,
}
use xtce_sim.Prelude.Dict
use xtce_sim.Prelude.Equality.{list_beq}
use xtce_sim.Utf8.{Text}
use xtce_sim.Schema.{CommandDef}
use xtce_sim.Generate.Opcodes.{
  MetaCommand, build_commands, reserve, reserve_one, assign, skip, is_taken,
}
use xtce_sim.Generate.Opcodes.Distinct.{DistinctNames}
use xtce_sim.Prelude.Dict.{Dict}
use xtce_sim.Prelude.Equality.{nat_eq, list_eq}
use xtce_sim.Definition.{command_by_opcode, raw, resolve_enum_arg, label_for}
use xtce_sim.Definition.Dispatch.{command_by_opcode-build}
use xtce_sim.Definition.Enumerations.{HasUniqueKeys}

abbrev a_name : Text
a_name = b'a' ∷ []

abbrev b_name : Text
b_name = b'b' ∷ []

abbrev first_of : Text → ℕ
first_of [] = 0
first_of (c ∷ cs) = c

abbrev concrete : List MetaCommand
concrete =
    record { name = b'a' ∷ []; extracted = some 0xc0; arguments = [] }
    ∷ record { name = b'b' ∷ []; extracted = none; arguments = [] }
    ∷ []

abbrev commands : List CommandDef
commands =
    record { name = b'a' ∷ []; opcode = 0xc0; synthetic = false; params = [] }
    ∷ record { name = b'b' ∷ []; opcode = 0xc1; synthetic = true; params = [] }
    ∷ []

concrete-DistinctNames : DistinctNames concrete
concrete-DistinctNames = ((ne, tt), (tt, tt))
  where
    ne : b_name ≢ a_name
    ne = λ e. omega (arith, ap first_of e)

built : build_commands concrete ≡ ok commands
unfolding build_commands reserve reserve_one assign skip is_taken Dict.get Dict.put list_beq
built = refl

command_by_opcode-build_example :
    command_by_opcode commands 0xc1
    ≡ some (record { name = b_name; opcode = 0xc1; synthetic = true; params = [] })
command_by_opcode-build_example =
    command_by_opcode-build concrete commands
      (record { name = b_name; opcode = 0xc1; synthetic = true; params = [] })
      concrete-DistinctNames built (inr (inl refl))

abbrev slots : Dict Text ℕ
slots = (a_name, 1) ∷ (b_name, 2) ∷ []

slots-HasUniqueKeys : HasUniqueKeys slots
slots-HasUniqueKeys = (((λ e. omega (arith, ap first_of e)), tt), (tt, tt))

resolved : resolve_enum_arg slots (raw 2) ≡ some (b_name, 2)
unfolding resolve_enum_arg label_for
resolved = refl
