-- ===== src/Preproc/Process.antt =====
-- The line loop of src/hdl_kgraph/parser/preprocessor.py: `_process` and `preprocess`.
pub mod Stable
pub mod Replay
pub mod LineMap
pub mod Roots
pub mod Memo
use hdl_kgraph.Base.{
  ℕ, zero, suc, ◌+◌, ◌-◌, Bool, true, false, not, ◌||◌, ◌&&◌, Option, none, some, List, [], ◌∷◌,
  ◌++◌, map, Text, codes, contains, strip_prefix, partition, has_char, nat_eq, list_eq, ◌==◌,
  if◌then◌else◌, ltb, length, list_beq,
}
use hdl_kgraph.Preproc.{
  LineOrigin, MacroDef, MacroEvent, define_event, undef_event, IncludeEvent, MacroTable, State,
  CharClasses, warn, unterminated_ifdef, malformed_define, unterminated_parameters,
  malformed_include, cannot_resolve, escapes_root, include_cycle, include_depth, cannot_read, Frame,
}
use hdl_kgraph.Preproc.Table
use hdl_kgraph.Preproc.Scan.{scan_parens, split_top_commas}
use hdl_kgraph.Preproc.Conditional.{
  Directive, ifdef, ifndef, elsif, else_branch, endif, emitting, ambiguous, handle_conditional,
  take_word, find_word,
}
use hdl_kgraph.Preproc.Expand.{expand, strip, strip_left, strip_right}
use hdl_kgraph.Preproc.Includes.{Files, Options, include_arg, resolve_include, within_allowed}
use hdl_kgraph.Preproc.Lines.{
  split_lines, emit_blanks, emit_lines, Line, define_line, conditional_line, undef_line,
  include_line, other_line, classify, join_lines,
}
use hdl_kgraph.Preproc.Define.{handle_define, handle_undef}
use hdl_kgraph.Preproc.Splice.{Splice, handle_include}

-- A run starts from the shared table and the shared memo.
abbrev pub fresh : MacroTable → State → State
fresh table s = record {
  table = table;
  cond = [];
  cache = s.cache;
  out = [];
  line_map = [];
  macro_defs = [];
  macro_events = [];
  macro_uses = [];
  includes = [];
  included_relpaths = [];
  warnings = [];
}

module _ (chars : CharClasses) (files : Files) (options : Options) where
  pub expand_line : Text → Text → ℕ → State → State
  unfolding expand split_lines emit_lines ambiguous
  expand_line raw relpath line s =
      let origin : LineOrigin = record {
        file = relpath;
        line = line;
        ambiguous = ambiguous s.cond;
      } in
      let (expanded, s₁) = expand chars origin options.max_expansion_depth [] raw s in
      emit_lines origin (split_lines expanded) s₁

  pub define_if : Bool → Text → Text → ℕ → State → State
  unfolding handle_define
  define_if true raw relpath line s = handle_define chars raw relpath line s
  define_if false raw relpath line s = s

  -- One line, and how many of the following lines it has consumed.
  pub process_line :
      Splice → Text → Text → List Text → ℕ → Text → List Text → Line → State → ℕ × State
  unfolding join_lines define_if emitting emit_blanks handle_conditional handle_undef handle_include
      expand_line
  process_line splice path relpath stack line raw following define_line s =
      let (joined, taken) = join_lines chars raw following in
      (
        taken,
        emit_blanks relpath line (suc taken) (define_if (emitting s.cond) joined relpath line s),
      )
  process_line splice path relpath stack line raw following (conditional_line d arg) s = (
    0,
    emit_blanks relpath line 1 (handle_conditional chars options.branch_mode d arg relpath line s),
  )
  process_line splice path relpath stack line raw following (undef_line arg) s =
      (0, emit_blanks relpath line 1 (if emitting s.cond then handle_undef chars arg s else s))
  process_line splice path relpath stack line raw following (include_line arg) s =
      let blank = emit_blanks relpath line 1 s in
      (
        0,
        if emitting s.cond
            then handle_include chars files options splice arg path relpath line stack blank
            else blank,
      )
  process_line splice path relpath stack line raw following other_line s =
      (0, if emitting s.cond then expand_line raw relpath line s else emit_blanks relpath line 1 s)

  -- The loop of `_process`, with the lines ahead that the last directive has consumed.
  pub process_lines : Splice → Text → Text → List Text → ℕ → ℕ → List Text → State → State
  unfolding process_line classify
  process_lines splice path relpath stack skip line [] s = s
  process_lines splice path relpath stack (suc skip) line (l ∷ ls) s =
      process_lines splice path relpath stack skip (suc line) ls s
  process_lines splice path relpath stack zero line (l ∷ ls) s =
      let done = process_line splice path relpath stack line l ls (classify chars l) s in
      process_lines splice path relpath stack done.0 (suc line) ls done.1

  -- `_process`, with the depth that `max_include_depth` leaves.
  pub process : ℕ → Text → Text → List Text → List Text → State → State
  unfolding process_lines
  process zero path relpath lines stack s = process_lines none path relpath stack zero 1 lines s
  process (suc depth) path relpath lines stack s =
      process_lines (some (process depth)) path relpath stack zero 1 lines s

  -- An unfinished chain is reported and dropped.
  pub close_conditionals : Text → List Frame → State → State
  close_conditionals relpath [] s = s
  close_conditionals relpath (f ∷ fs) s = record (warn (unterminated_ifdef relpath) s) { cond = [] }

  -- `preprocess` of the lines of a file. The table and the memo are those that the last run left.
  unfoldable pub preprocess : Text → List Text → State → State
  unfolding process close_conditionals
  preprocess path lines s =
      let relpath = files.relpath path in
      let ended =
        process (options.max_include_depth - 1) path relpath lines (path ∷ []) (fresh s.table s) in
      close_conditionals relpath ended.cond ended

-- `pp.text`
unfoldable pub text_of : List Text → Text
text_of [] = []
text_of (l ∷ ls) = l ++ b'\n' ∷ text_of ls
