-- ===== src/SequenceFile.antt =====
-- xtce_sim/sequences.py: ATS and RTS files. A problem is kept as the number of its line, without its
-- text. A time is a number of microseconds from 1970 on; decimals of a delay beyond the sixth are left
-- out. What `datetime.fromisoformat` answers, in UTC where a zone is absent, is a parameter.
pub mod Accepted
pub mod Reports
use xtce_sim.Prelude.{
  ℕ, suc, ◌+◌, ◌-◌, ◌*◌, List, [], ◌∷◌, ◌++◌, length, take, replicate, Option, none, some, Bool,
  true, false, ◌&&◌, ◌||◌, not, Result, ok, err, leb, ltb, ◌==◌, if◌then◌else◌, is_some,
}
use xtce_sim.Prelude.Texts.{codes, lower, starts_with, before, behind, split_at, strip, words}
use xtce_sim.Prelude.Equality.{list_eq, list_beq}
use xtce_sim.Prelude.Dict
use xtce_sim.Prelude.Dict.{Dict}
use xtce_sim.Prelude.Sort.{sort, itself}
use xtce_sim.Utf8.{Text}
use xtce_sim.Schema.{SimDefinition}
use xtce_sim.Definition.{command_by_name}
use xtce_sim.Codec.{Value, text}
use xtce_sim.Codec.Command.{encode_command}
use xtce_sim.Sequencer.{Kind, ats, rts, SequenceEntry, Sequence}

last_part : List Text → Text
last_part [] = []
last_part (p ∷ []) = p
last_part (p ∷ q ∷ ps) = last_part (q ∷ ps)

-- `kind_for`
unfoldable pub kind_for : Text → Option Kind
unfolding last_part
kind_for name =
    let parts = split_at b'.' name in
    let ext = lower (last_part parts) in
    if ltb 1 (length parts)
    then if list_beq ext (codes "ats")
      then some ats
      else if list_beq ext (codes "rts")
      then some rts
      else none
    else none

all_digits : Text → Bool
all_digits [] = true
all_digits (c ∷ s) = leb b'0' c && leb c b'9' && all_digits s

-- `\d+`
abbrev some_digits : Text → Bool
some_digits s = ltb 0 (length s) && all_digits s

of_digits : ℕ → Text → ℕ
of_digits acc [] = acc
of_digits acc (c ∷ s) = of_digits (acc * 10 + (c - b'0')) s

-- The millionths that a decimal fraction gives.
abbrev millionths : Text → ℕ
millionths s = of_digits 0 (take 6 (s ++ replicate 6 b'0'))

-- `_parse_rts_delay` behind the sign: `\d+(?:\.\d+)?`
unsigned_delay : Text → Option ℕ
unfolding all_digits of_digits
unsigned_delay s =
    let whole = before b'.' s in
    elim (behind b'.' s) [
      | none ↦ if some_digits whole then some (of_digits 0 whole * 1000000) else none
      | some fraction ↦
          if some_digits whole && some_digits fraction
          then some (of_digits 0 whole * 1000000 + millionths fraction)
          else none
    ]

unfoldable pub parse_rts_delay : Text → Option ℕ
unfolding unsigned_delay
parse_rts_delay [] = none
parse_rts_delay (c ∷ s) = if c == b'+' then unsigned_delay s else none

-- The arguments of a line, and the number of the line for each token that is not one.
unfoldable pub collect_args : ℕ → Dict Text Text → List Text → List ℕ × Dict Text Text
collect_args line args [] = ([], args)
collect_args line args (token ∷ tokens) =
    let key = before b'=' token in
    let (problems, others) = collect_args line args tokens in
    elim (behind b'=' token) [
      | none ↦ (line ∷ problems, others)
      | some value ↦
          let rest = collect_args line (Dict.put args key value) tokens in
          if length key == 0 || is_some (Dict.get args key) then (line ∷ problems, others) else rest
    ]

has_char : ℕ → Text → Bool
has_char x [] = false
has_char x (c ∷ s) = c == x || has_char x s

-- What `_parse` raises, with the lines of its problems in order, or returns.
pub data Parsed : Type 0 where
  rejected : List ℕ → Parsed
  accepted : Sequence → Parsed

abbrev pub as_texts : Dict Text Text → Dict Text Value
as_texts [] = []
as_texts ((k, v) ∷ args) = (k, text v) ∷ as_texts args

-- Whether `_entry_problem` finds one.
unfoldable pub entry_problem : SimDefinition → SequenceEntry → Bool
entry_problem simdef e = elim (command_by_name simdef.commands e.command) [
  | none ↦ true
  | some c ↦ elim (encode_command c.params (as_texts e.args) true) [
    | ok payload ↦ false
    | err e ↦ true
  ]
]

-- `_definition_problems`
unfoldable pub definition_problems : SimDefinition → List SequenceEntry → List ℕ
unfolding entry_problem
definition_problems simdef [] = []
definition_problems simdef (e ∷ es) =
    let rest = definition_problems simdef es in
    if entry_problem simdef e then e.line ∷ rest else rest

abbrev pub checked_problems : Option SimDefinition → List SequenceEntry → List ℕ
checked_problems none es = []
checked_problems (some simdef) es = definition_problems simdef es

abbrev pub time_of : SequenceEntry → ℕ
time_of e = e.time

-- All the problems that `_parse` finds; the empty plan has line 0.
unfoldable pub all_problems : Option SimDefinition → List ℕ → List SequenceEntry → List ℕ
all_problems simdef [] [] = 0 ∷ checked_problems simdef []
all_problems simdef [] (e ∷ es) = checked_problems simdef (e ∷ es)
all_problems simdef (p ∷ ps) es = p ∷ ps ++ checked_problems simdef es

-- The end of `_parse`.
abbrev pub concluded : Kind → Text → List SequenceEntry → List ℕ → Parsed
concluded kind name es [] =
    accepted (record { kind = kind; name = name; entries = sort time_of es })
concluded kind name es (p ∷ ps) = rejected (sort itself (p ∷ ps))

module _ (from_iso : Text → Option ℕ) where
  -- `_parse_ats_time`
  unfoldable pub parse_ats_time : Text → Option ℕ
  unfolding has_char
  parse_ats_time token = elim (from_iso token) [
    | none ↦ none
    | some t ↦ if has_char b'T' token || has_char b':' token then some t else none
  ]

  abbrev parse_time : Kind → Text → Option ℕ
  parse_time ats token = parse_ats_time token
  parse_time rts token = parse_rts_delay token

  -- `_parse_line`: the problems it adds, and the entry.
  parse_tokens : Kind → ℕ → List Text → List ℕ × Option SequenceEntry
  parse_tokens kind line (first ∷ command ∷ tokens) = elim (parse_time kind first) [
    | none ↦ (line ∷ [], none)
    | some when ↦
        let (problems, args) = collect_args line [] tokens in
        elim problems [
          | p ∷ ps ↦ (p ∷ ps, none)
          | [] ↦ ([], some (record { time = when; command = command; args = args; line = line }))
        ]
  ]
  parse_tokens kind line parts = (line ∷ [], none)

  unfoldable pub parse_line : Kind → ℕ → Text → List ℕ × Option SequenceEntry
  unfolding parse_tokens
  parse_line kind line s = parse_tokens kind line (words s)

  abbrev pub joined :
      List ℕ × Option SequenceEntry → List ℕ × List SequenceEntry → List ℕ × List SequenceEntry
  joined (problems, none) (others, es) = (problems ++ others, es)
  joined (problems, some e) (others, es) = (problems ++ others, e ∷ es)

  -- The loop of `_scan_lines`, from a line number on.
  unfoldable pub scan_lines : Kind → ℕ → List Text → List ℕ × List SequenceEntry
  unfolding parse_line
  scan_lines kind line [] = ([], [])
  scan_lines kind line (s ∷ rest) =
      let others = scan_lines kind (suc line) rest in
      let content = strip (before b'#' s) in
      if length content == 0 then others else joined (parse_line kind line content) others

  abbrev pub scanned : Kind → Text → List ℕ × List SequenceEntry
  scanned kind s = scan_lines kind 1 (split_at b'\n' s)

  -- `_parse`, which `parse_ats` and `parse_rts` call with their kind.
  unfoldable pub parse : Kind → Text → Text → Option SimDefinition → Parsed
  unfolding all_problems
  parse kind s name simdef =
      let (problems, es) = scanned kind s in
      concluded kind name es (all_problems simdef problems es)
