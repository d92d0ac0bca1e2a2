-- ===== src/Preproc/Expand.antt =====
-- Macro expansion: `_expand` and `_expand_one` of src/hdl_kgraph/parser/preprocessor.py.
--
-- A walk over a text carries `skip`, the characters ahead that the last match has consumed, so that
-- every loop is a recursion on the text. The nesting of expansions is a recursion on the depth that
-- `max_expansion_depth` leaves.
pub mod Substitute
pub mod Stable
use hdl_kgraph.Base.{
  ℕ, zero, suc, ◌+◌, ◌-◌, Bool, true, false, not, ◌||◌, ◌&&◌, Option, none, some, List, [], ◌∷◌,
  ◌++◌, map, Text, codes, Dict, insert, contains, length, take, drop, ltb, nat_eq, list_eq, ◌==◌,
  if◌then◌else◌, ◌/◌, ◌%◌, list_beq,
}
use hdl_kgraph.Preproc.{
  LineOrigin, MacroDef, MacroUse, State, CharClasses, warn, note_use, expansion_depth,
  arguments_open, too_many_arguments, missing_argument,
}
use hdl_kgraph.Preproc.Table.{get}
use hdl_kgraph.Preproc.Scan.{scan_parens, split_top_commas}
use hdl_kgraph.Preproc.Conditional.{take_word}
use hdl_kgraph.Preproc.Expand.Substitute.{substitute, replace_all}

-- `text.strip()`
unfoldable pub strip_left : (ℕ → Bool) → Text → Text
strip_left is_space [] = []
strip_left is_space (c ∷ t) = let rest = strip_left is_space t in if is_space c then rest else c ∷ t

unfoldable pub strip_right : (ℕ → Bool) → Text → Text
strip_right is_space [] = []
strip_right is_space (c ∷ t) = elim (strip_right is_space t) [
  | [] ↦ if is_space c then [] else c ∷ []
  | d ∷ rest ↦ c ∷ d ∷ rest
]

unfoldable pub strip : (ℕ → Bool) → Text → Text
unfolding strip_left strip_right
strip is_space t = strip_right is_space (strip_left is_space t)

-- `str(n)` of a line number.
decimal : ℕ → ℕ → Text → Text
decimal zero n acc = acc
decimal (suc fuel) n acc =
    let rest = decimal fuel (n / 10) ((b'0' + n % 10) ∷ acc) in
    if ltb n 10 then (b'0' + n) ∷ acc else rest

unfoldable pub str_nat : ℕ → Text
unfolding decimal
str_nat n = decimal (suc n) n []

-- Directives that the expansion leaves alone.
abbrev pub passed_directives : List Text
passed_directives =
    codes "timescale"
    ∷ codes "default_nettype"
    ∷ codes "resetall"
    ∷ codes "celldefine"
    ∷ codes "endcelldefine"
    ∷ codes "pragma"
    ∷ codes "line"
    ∷ codes "unconnected_drive"
    ∷ codes "nounconnected_drive"
    ∷ codes "begin_keywords"
    ∷ codes "end_keywords"
    ∷ codes "ifdef"
    ∷ codes "ifndef"
    ∷ codes "elsif"
    ∷ codes "else"
    ∷ codes "endif"
    ∷ codes "define"
    ∷ codes "undef"
    ∷ codes "include"
    ∷ []

-- The blanks and tabs at the head of a text.
unfoldable pub skip_blanks : Text → Text
skip_blanks [] = []
skip_blanks (c ∷ t) = let rest = skip_blanks t in if c == b' ' || c == b'\t' then rest else c ∷ t

is_empty : Text → Bool
is_empty [] = true
is_empty (c ∷ t) = false

module _ (chars : CharClasses) (origin : LineOrigin) where
  abbrev use_of : Text → Option MacroDef → MacroUse
  use_of name macro = record {
    name = name;
    file = origin.file;
    line = origin.line;
    macro = macro;
    ambiguous = origin.ambiguous;
  }

  -- The arguments between the parentheses.
  arguments : Text → List Text
  unfolding strip split_top_commas is_empty
  arguments inner =
      if is_empty (strip chars.is_space inner)
      then []
      else map (strip chars.is_space) (split_top_commas inner)

  -- The value of a parameter where no argument is given for it, or an empty one.
  otherwise : Text → Text → Option Text → State → Text × State
  otherwise macro_name pname (some default) s = (default, s)
  otherwise macro_name pname none s =
      ([], warn (missing_argument origin.file origin.line pname macro_name) s)

  value_of : Text → Text → Option Text → List Text → State → Text × State
  unfolding otherwise
  value_of macro_name pname default ((c ∷ a) ∷ args) s = (c ∷ a, s)
  value_of macro_name pname default ([] ∷ args) s = otherwise macro_name pname default s
  value_of macro_name pname default [] s = otherwise macro_name pname default s

  -- `bindings[pname] = …`, parameter by parameter.
  bind :
      Text → List (Text × Option Text) → List Text → Dict Text Text → State → Dict Text Text × State
  unfolding insert value_of
  bind macro_name [] args bindings s = (bindings, s)
  bind macro_name ((pname, default) ∷ params) args bindings s =
      let (value, s') = value_of macro_name pname default args s in
      bind macro_name params (drop 1 args) (insert bindings pname value) s'

  -- Surplus arguments are dropped with a warning.
  limited : Text → ℕ → List Text → State → List Text × State
  limited macro_name count args s =
      if ltb count (length args)
      then (take count args, warn (too_many_arguments origin.file origin.line macro_name) s)
      else (args, s)

  -- Stringification and token pasting, best effort.
  paste : Text → Text
  unfolding replace_all
  paste body = replace_all (codes "``") [] (
      replace_all (b'`' ∷ b'"' ∷ []) (b'"' ∷ [])
        (replace_all (b'`' ∷ b'\\' ∷ b'`' ∷ b'"' ∷ []) (b'\\' ∷ b'"' ∷ []) body))

  substituted : Dict Text Text → Text → Text
  unfolding substitute
  substituted [] body = body
  substituted (b ∷ bs) body = substitute chars.is_word (b ∷ bs) body

  finish : MacroDef → Text → Text → State → Text × Text × State
  unfolding paste
  finish macro body rest s = (paste body, rest, note_use (use_of macro.name (some macro)) s)

  -- The text of a use whose arguments are found.
  with_arguments : MacroDef → List (Text × Option Text) → Text → Text → State → Text × Text × State
  unfolding arguments limited bind substituted finish
  with_arguments macro params inner rest s =
      let (args, s₁) = limited macro.name (length params) (arguments inner) s in
      let (bindings, s₂) = bind macro.name params args [] s₁ in
      finish macro (substituted bindings macro.body) rest s₂

  -- The use of a macro with parameters, by what the scan of its argument list found.
  scanned :
      MacroDef
      → List (Text × Option Text)
      → Text
      → Option (Text × Text)
      → State
      → Text × Text × State
  unfolding with_arguments
  scanned macro params behind none s = (
    b'`' ∷ macro.name,
    behind,
    note_use (use_of macro.name none) (warn (arguments_open origin.file origin.line macro.name) s),
  )
  scanned macro params behind (some (inner, after)) s = with_arguments macro params inner after s

  with_params : MacroDef → Option (List (Text × Option Text)) → Text → State → Text × Text × State
  unfolding finish scanned skip_blanks scan_parens
  with_params macro none rest s = finish macro macro.body rest s
  with_params macro (some params) rest s =
      let behind = skip_blanks rest in scanned macro params behind (scan_parens behind) s

  -- `_expand_one`: the replacement, and the text behind the use.
  pub expand_one : MacroDef → Text → State → Text × Text × State
  unfolding with_params
  expand_one macro rest s = with_params macro macro.params rest s

  -- How deeper expansions are made: `none` at the depth limit.
  abbrev pub Deeper : Type 0
  Deeper = Option (List Text → Text → State → Text × State)

  -- The replacement text, itself expanded unless the limit is reached.
  nested : Deeper → List Text → Text → Text → State → Text × State
  nested none stack name replacement s =
      (replacement, warn (expansion_depth origin.file origin.line name) s)
  nested (some deeper) stack name replacement s = deeper (stack ++ name ∷ []) replacement s

  -- A use of a name that the table has or has not.
  looked_up : Deeper → List Text → Text → Text → Option MacroDef → State → Text × ℕ × State
  unfolding expand_one nested
  looked_up deeper stack name rest none s = (b'`' ∷ name, 0, note_use (use_of name none) s)
  looked_up deeper stack name rest (some macro) s =
      let (replacement, behind, s₁) = expand_one macro rest s in
      let (expanded, s₂) = nested deeper stack name replacement s₁ in
      (expanded, length rest - length behind, s₂)

  -- What one use of `name` becomes, before the text `rest`: its expansion, and the characters of
  -- `rest` that it consumes.
  pub expand_use : Deeper → List Text → Text → Text → State → Text × ℕ × State
  unfolding looked_up str_nat list_beq contains get
  expand_use deeper stack name rest s =
      if name == codes "__FILE__"
      then (b'"' ∷ (origin.file ++ b'"' ∷ []), 0, s)
      else if name == codes "__LINE__"
      then (str_nat origin.line, 0, s)
      else if contains passed_directives name || contains stack name
      then (b'`' ∷ name, 0, s)
      else looked_up deeper stack name rest (get s.table name) s

  -- The loop of `_expand`.
  pub expand_text : Deeper → List Text → ℕ → Text → State → Text × State
  unfolding take_word
  expand_text deeper stack skip [] s = ([], s)
  expand_text deeper stack (suc skip) (c ∷ t) s = expand_text deeper stack skip t s
  expand_text deeper stack zero (c ∷ t) s =
      let name = take_word chars.is_word t in
      let use_result = expand_use deeper stack name (drop (length name) t) s in
      let after_use = expand_text deeper stack (length name + use_result.1) t use_result.2 in
      let after_char = expand_text deeper stack zero t s in
      if c == b'`' && not (is_empty name)
      then (use_result.0 ++ after_use.0, after_use.1)
      else (c ∷ after_char.0, after_char.1)

  -- `_expand`, with the depth that is left.
  unfoldable pub expand : ℕ → List Text → Text → State → Text × State
  unfolding expand_text expand_use
  expand zero stack t s = expand_text none stack zero t s
  expand (suc depth) stack t s = expand_text (some (expand depth)) stack zero t s
