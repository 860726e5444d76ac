-- ===== src/Generate/Opcodes.antt =====
-- `_reserve_real_opcodes` and `_assign_synthetic_opcodes` of xtce_sim/generate.py. The
-- significance of a command is left out.
pub mod Assign
pub mod Distinct
use xtce_sim.Prelude.{
  ℕ, zero, suc, ◌+◌, ◌-◌, List, [], ◌∷◌, Option, none, some, Bool, true, false, ◌||◌, Result, ok,
  err, generator_error, ◌>>=◌, leb, ltb, ◌==◌, if◌then◌else◌,
}
use xtce_sim.Prelude.Equality.{list_eq}
use xtce_sim.Prelude.Dict
use xtce_sim.Prelude.Dict.{Dict}
use xtce_sim.Utf8.{Text}
use xtce_sim.Schema.{CommandDef, ParamInfo}

-- A concrete command, with what `extract_opcode` gives for it and what
-- `_param_info_for_arg` makes of its arguments. A negative opcode, which a command can
-- declare too, is refused as one above 255 is.
pub record MetaCommand : Type 0 where
  pub name : Text
  pub extracted : Option ℕ
  pub arguments : List ParamInfo

abbrev pub synthetic_opcode_base : ℕ
synthetic_opcode_base = 0xc0

abbrev pub max_opcode : ℕ
max_opcode = 0xff

-- `opcode in taken`
unfoldable pub is_taken : ℕ → List ℕ → Bool
is_taken n [] = false
is_taken n (t ∷ ts) = n == t || is_taken n ts

-- `real_opcodes` and `taken`
abbrev pub Reserved : Type 0
Reserved = Dict Text (Option ℕ) × List ℕ

-- One turn of the loop of `_reserve_real_opcodes`.
unfoldable pub reserve_one : MetaCommand → Reserved → Result Reserved
reserve_one c (real, taken) = elim c.extracted [
  | none ↦ ok (Dict.put real c.name none, taken)
  | some opcode ↦
      if leb opcode max_opcode
      then if is_taken opcode taken
        then err generator_error
        else ok (Dict.put real c.name (some opcode), opcode ∷ taken)
      else err generator_error
]

unfoldable pub reserve : List MetaCommand → Reserved → Result Reserved
reserve [] st = ok st
reserve (c ∷ cs) st = reserve_one c st >>= λ st'. reserve cs st'

-- `while next_synthetic in taken: next_synthetic += 1`
unfoldable pub skip : ℕ → ℕ → List ℕ → ℕ
skip zero next taken = next
skip (suc fuel) next taken =
    let later = skip fuel (next + 1) taken in if is_taken next taken then later else next

-- `real_opcodes[cmd.name]`; every command has an entry.
abbrev pub real_of : Option (Option ℕ) → Option ℕ
real_of none = none
real_of (some opcode) = opcode

abbrev pub listed : CommandDef → Result (List CommandDef) → Result (List CommandDef)
listed d (ok ds) = ok (d ∷ ds)
listed d (err e) = err e

-- The loop of `_assign_synthetic_opcodes`. No opcode above 255 is taken, so the loop that skips has
-- at most as many turns as it has fuel.
unfoldable pub assign :
    List MetaCommand → Dict Text (Option ℕ) → List ℕ → ℕ → Result (List CommandDef)
assign [] real taken next = ok []
assign (c ∷ cs) real taken next = elim (real_of (Dict.get real c.name)) [
  | some opcode ↦
      listed (record { name = c.name; opcode = opcode; synthetic = false; params = c.arguments })
        (assign cs real taken next)
  | none ↦
      let n = skip (max_opcode + 1 - next) next taken in
      let rest = assign cs real (n ∷ taken) (n + 1) in
      if ltb max_opcode n
      then err generator_error
      else listed (record { name = c.name; opcode = n; synthetic = true; params = c.arguments })
          rest
]

-- `build_commands`, before it sorts.
unfoldable pub build_commands : List MetaCommand → Result (List CommandDef)
build_commands concrete =
    reserve concrete ([], []) >>= λ (real, taken). assign concrete real taken synthetic_opcode_base
