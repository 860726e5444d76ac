-- ===== src/SequenceFile/Accepted.antt =====
-- The plans that the parser of xtce_sim/sequences.py accepts.
use xtce_sim.Prelude.{
  ℕ, ◌≡◌, ◌≢◌, refl, arith, List, [], ◌∷◌, Option, some, false, All, Bool-cases, inl, inr,
}
use xtce_sim.Utf8.{Text}
use xtce_sim.Schema.{SimDefinition}
use xtce_sim.Sequencer.{Kind, SequenceEntry, Sequence}
use xtce_sim.Sequencer.Commands.Past.{InOrder}
use xtce_sim.SequenceFile.{
  accepted, entry_problem, definition_problems, time_of, scanned, all_problems, parse, concluded,
}
use xtce_sim.Prelude.Sort.{
  sort, Ascending, with_key, sort-Ascending, with_key-sort, All-sort, sort-not_empty,
}

pub Ascending-InOrder : (es : List SequenceEntry) → Ascending time_of es → InOrder es
Ascending-InOrder [] h = tt
Ascending-InOrder (e ∷ es) h = (h.0, Ascending-InOrder es h.1)

abbrev Encodes : SimDefinition → SequenceEntry → Type 0
Encodes simdef e = entry_problem simdef e ≡ false

no_problem-Encodes :
    (simdef : SimDefinition) (es : List SequenceEntry)
    → definition_problems simdef es ≡ []
    → All (Encodes simdef) es
unfolding definition_problems
no_problem-Encodes simdef [] h = tt
no_problem-Encodes simdef (e ∷ es) h = elim (Bool-cases (entry_problem simdef e)) [
  | inl bad ↦ absurd (ground (arith, rw bad at h))
  | inr fine ↦ (fine, no_problem-Encodes simdef es (rw fine at h))
]

-- What an accepted plan promises of the entries that were read.
abbrev pub IsPlan : SimDefinition → List SequenceEntry → List SequenceEntry → Type 0
IsPlan simdef read es =
    (es ≢ [])
    × InOrder es
    × All (Encodes simdef) es
    × ((n : ℕ) → with_key time_of n es ≡ with_key time_of n read)

concluded-IsPlan :
    (simdef : SimDefinition) (problems : List ℕ) (es : List SequenceEntry)
    → all_problems (some simdef) problems es ≡ []
    → (problems ≡ []) × IsPlan simdef es (sort time_of es)
unfolding all_problems
concluded-IsPlan simdef [] [] h = absurd (ground (arith, h))
concluded-IsPlan simdef (p ∷ ps) es h = absurd (ground (arith, h))
concluded-IsPlan simdef [] (e ∷ es) h = (
  refl,
  (
    sort-not_empty time_of e es,
    Ascending-InOrder (sort time_of (e ∷ es)) (sort-Ascending time_of (e ∷ es)),
    All-sort time_of (Encodes simdef) (e ∷ es) (no_problem-Encodes simdef (e ∷ es) h),
    (λ (n : ℕ). with_key-sort time_of n (e ∷ es)),
  ),
)

opened :
    (kind : Kind) (name : Text) (es : List SequenceEntry) (problems : List ℕ) (plan : Sequence)
    → concluded kind name es problems ≡ accepted plan
    → (problems ≡ []) × (plan ≡ record { kind = kind; name = name; entries = sort time_of es })
opened kind name es [] plan h = (refl, ground (arith, h))
opened kind name es (p ∷ ps) plan h = absurd (ground (arith, h))

module _ (from_iso : Text → Option ℕ) where
  -- A plan is accepted only when no line of the file is malformed. It is then not empty, its entries are
  -- in the order of their times, those of one time as the file has them, none is lost or added, and each
  -- encodes.
  pub parse-IsPlan :
      (kind : Kind) (s name : Text) (simdef : SimDefinition) (plan : Sequence)
      → parse from_iso kind s name (some simdef) ≡ accepted plan
      → (plan.kind ≡ kind)
        × ((scanned from_iso kind s).0 ≡ [])
        × IsPlan simdef (scanned from_iso kind s).1 plan.entries
  unfolding parse
  parse-IsPlan kind s name simdef plan h =
      let (problems, es) = scanned from_iso kind s in
      let (none_found, same) =
        opened kind name es (all_problems (some simdef) problems es) plan h in
      let (whole, good) = concluded-IsPlan simdef problems es none_found in
      rw same (refl, whole, good)
