-- ===== src/SequenceFile/Reports.antt =====
-- What `_parse` of xtce_sim/sequences.py reports of a file that it rejects.
use xtce_sim.Prelude.{
  ℕ, suc, ◌+◌, List, [], ◌∷◌, ◌++◌, length, Option, none, some, ◌==◌, if◌then◌else◌,
}
use xtce_sim.Prelude.Equality.{nat_eq}
use xtce_sim.Prelude.Texts.{before, strip}
use xtce_sim.Utf8.{Text}
use xtce_sim.Schema.{SimDefinition}
use xtce_sim.Sequencer.{Kind, SequenceEntry}
use xtce_sim.SequenceFile.{checked_problems, parse_line}
use xtce_sim.Prelude.Sort.{itself, with_key}

-- How often a number is in a list.
abbrev pub times : ℕ → List ℕ → ℕ
times n xs = length (with_key itself n xs)

-- The problems of one line, and that of its entry, if the definition does not take it.
abbrev pub reports_of : Option SimDefinition → List ℕ × Option SequenceEntry → List ℕ
reports_of simdef (problems, none) = problems
reports_of simdef (problems, some e) = problems ++ checked_problems simdef (e ∷ [])

module _ (from_iso : Text → Option ℕ) (simdef : Option SimDefinition) (kind : Kind) where
  -- What there is to report of a file, line by line.
  unfoldable pub file_reports : ℕ → List Text → List ℕ
  file_reports line [] = []
  file_reports line (s ∷ rest) =
      let others = file_reports (suc line) rest in
      let content = strip (before b'#' s) in
      if length content == 0
      then others
      else reports_of simdef (parse_line from_iso kind line content) ++ others

  abbrev found : List ℕ × List SequenceEntry → ℕ → ℕ
  found (problems, es) n = times n problems + times n (checked_problems simdef es)
