-- ===== src/Preproc/Lines.antt =====
-- The lines of src/hdl_kgraph/parser/preprocessor.py: `_DIRECTIVE_RE`, backslash continuations, and
-- the lines that a run emits.
use hdl_kgraph.Base.{
  ℕ, zero, suc, false, Option, none, some, List, [], ◌∷◌, ◌++◌, Text, codes, strip_prefix, nat_eq,
  list_eq, ◌==◌, if◌then◌else◌, list_beq,
}
use hdl_kgraph.Preproc.{LineOrigin, State, CharClasses}
use hdl_kgraph.Preproc.Conditional.{Directive, ifdef, ifndef, elsif, else_branch, endif, take_word}
use hdl_kgraph.Preproc.Expand.{strip_left, strip_right}

-- `text.split("\n")`
unfoldable pub split_lines : Text → List Text
split_lines [] = [] ∷ []
split_lines (c ∷ t) = elim (split_lines t) [
  | [] ↦ [] ∷ []
  | l ∷ ls ↦ if c == b'\n' then [] ∷ (l ∷ ls) else (c ∷ l) ∷ ls
]

-- The text before a final backslash.
unfoldable pub before_backslash : Text → Option Text
before_backslash [] = none
before_backslash (c ∷ []) = if c == b'\\' then some [] else none
before_backslash (c ∷ d ∷ t) = elim (before_backslash (d ∷ t)) [
  | none ↦ none
  | some a ↦ some (c ∷ a)
]

-- What a line is: its directive, and what stands behind the directive's name.
pub data Line : Type 0 where
  define_line : Line
  conditional_line : Directive → Text → Line
  undef_line include_line : Text → Line
  other_line : Line

-- `raw` emitted as `count` blank lines.
unfoldable pub emit_blanks : Text → ℕ → ℕ → State → State
emit_blanks relpath line zero s = s
emit_blanks relpath line (suc count) s = emit_blanks relpath (suc line) count (record s {
  out = s.out ++ [] ∷ [];
  line_map = s.line_map ++ (record { file = relpath; line = line; ambiguous = false }) ∷ [];
})

unfoldable pub emit_lines : LineOrigin → List Text → State → State
emit_lines origin [] s = s
emit_lines origin (l ∷ ls) s =
    emit_lines origin ls (record s { out = s.out ++ l ∷ []; line_map = s.line_map ++ origin ∷ [] })

module _ (chars : CharClasses) where
  -- The word behind a backtick, with the rest.
  named_directive : Text → Text → Line
  unfolding list_beq
  named_directive name rest =
      if name == codes "define"
      then define_line
      else if name == codes "ifdef"
      then conditional_line ifdef rest
      else if name == codes "ifndef"
      then conditional_line ifndef rest
      else if name == codes "elsif"
      then conditional_line elsif rest
      else if name == codes "else"
      then conditional_line else_branch rest
      else if name == codes "endif"
      then conditional_line endif rest
      else if name == codes "undef"
      then undef_line rest
      else if name == codes "include"
      then include_line rest
      else other_line

  -- `_DIRECTIVE_RE.match(raw)` and what the line loop makes of it.
  unfoldable pub classify : Text → Line
  unfolding named_directive strip_left take_word strip_prefix
  classify raw = elim (strip_prefix (codes "`") (strip_left chars.is_space raw)) [
    | none ↦ other_line
    | some rest ↦
        let name = take_word chars.is_word rest in
        elim (strip_prefix name rest) [
          | none ↦ other_line
          | some behind ↦ named_directive name behind
        ]
  ]

  -- Joins backslash continuations: the text, and how many of the following lines it takes.
  unfoldable pub join_lines : Text → List Text → Text × ℕ
  unfolding strip_right before_backslash
  join_lines raw [] = (raw, 0)
  join_lines raw (l ∷ ls) = elim (before_backslash (strip_right chars.is_space raw)) [
    | none ↦ (raw, 0)
    | some head ↦ let (joined, taken) = join_lines (head ++ b'\n' ∷ l) ls in (joined, suc taken)
  ]
