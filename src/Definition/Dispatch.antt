-- ===== src/Definition/Dispatch.antt =====
-- Dispatch by opcode, xtce_sim/definition.py, on the commands that xtce_sim/generate.py builds.
use xtce_sim.Prelude.{
  ℕ, ◌≡◌, ◌≢◌, refl, arith, List, [], ◌∷◌, ◌⊎◌, inl, inr, some, true, false, Bool-cases, ok, ◌==◌,
}
use xtce_sim.Generate.Opcodes.{MetaCommand, build_commands}
use xtce_sim.Schema.{CommandDef}
use xtce_sim.Generate.Opcodes.Assign.{Avoids, AllDistinct}
use xtce_sim.Generate.Opcodes.Distinct.{DistinctNames, build_commands-AllDistinct}
use xtce_sim.Definition.{command_by_opcode}

abbrev pub IsOneOf : CommandDef → List CommandDef → Type 0
IsOneOf c [] = ⊥
IsOneOf c (d ∷ ds) = (c ≡ d) ⊎ IsOneOf c ds

Avoids-one :
    (n : ℕ) (c : CommandDef) (ds : List CommandDef) → Avoids n ds → IsOneOf c ds → c.opcode ≢ n
Avoids-one n c [] h m = absurd m
Avoids-one n c (d ∷ ds) h (inl same) = rw same h.0
Avoids-one n c (d ∷ ds) h (inr later) = Avoids-one n c ds h.1 later

differ : (m n : ℕ) → m ≢ n → (n == m) ≡ false
differ m n h = elim (Bool-cases (n == m)) [ inl e ↦ absurd (h (ground (arith, e))) | inr e ↦ e ]

self : (n : ℕ) → (n == n) ≡ true
self n = ground arith

command_by_opcode-AllDistinct :
    (ds : List CommandDef) (c : CommandDef)
    → AllDistinct ds
    → IsOneOf c ds
    → command_by_opcode ds c.opcode ≡ some c
unfolding command_by_opcode
command_by_opcode-AllDistinct [] c h m = absurd m
command_by_opcode-AllDistinct (d ∷ ds) c h (inl same) = rw (same, self d.opcode) refl
command_by_opcode-AllDistinct (d ∷ ds) c h (inr later) =
    rw (differ c.opcode d.opcode (Avoids-one d.opcode c ds h.0 later))
      (command_by_opcode-AllDistinct ds c h.1 later)

-- Each command that the generator builds from commands of distinct names is the one that its opcode
-- dispatches to.
pub command_by_opcode-build :
    (concrete : List MetaCommand) (commands : List CommandDef) (c : CommandDef)
    → DistinctNames concrete
    → build_commands concrete ≡ ok commands
    → IsOneOf c commands
    → command_by_opcode commands c.opcode ≡ some c
command_by_opcode-build concrete commands c d e m =
    command_by_opcode-AllDistinct commands c (build_commands-AllDistinct concrete commands d e).2 m
