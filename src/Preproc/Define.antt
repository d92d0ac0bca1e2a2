-- ===== src/Preproc/Define.antt =====
-- `_handle_define` and the `` `undef `` of src/hdl_kgraph/parser/preprocessor.py.
use hdl_kgraph.Base.{
  ℕ, Bool, false, Option, none, some, List, [], ◌∷◌, ◌++◌, map, Text, codes, strip_prefix,
  partition, nat_eq, list_eq, ◌==◌, if◌then◌else◌,
}
use hdl_kgraph.Preproc.{
  MacroDef, define_event, undef_event, State, CharClasses, warn, malformed_define,
  unterminated_parameters,
}
use hdl_kgraph.Preproc.Table
use hdl_kgraph.Preproc.Scan.{scan_parens, split_top_commas}
use hdl_kgraph.Preproc.Conditional.{take_word, find_word}
use hdl_kgraph.Preproc.Expand.{strip, strip_left}

unfoldable pub add_macro : MacroDef → State → State
unfolding Table.define
add_macro macro s = record s {
  table = Table.define s.table macro;
  macro_defs = s.macro_defs ++ macro ∷ [];
  macro_events = s.macro_events ++ define_event macro ∷ [];
}

-- The text begins with `(`.
opens_list : Text → Bool
opens_list [] = false
opens_list (c ∷ t) = c == b'('

unfoldable pub undef_named : Option Text → State → State
unfolding Table.undef
undef_named none s = s
undef_named (some name) s = record s {
  table = Table.undef s.table name;
  macro_events = s.macro_events ++ undef_event name ∷ [];
}

module _ (chars : CharClasses) where
  -- `_DEFINE_RE.match(raw)`: the name and the text behind it.
  pub define_head : Text → Option (Text × Text)
  unfolding strip_left take_word strip_prefix
  define_head raw = elim (strip_prefix (codes "`define") (strip_left chars.is_space raw)) [
    | none ↦ none
    | some [] ↦ none
    | some (c ∷ t) ↦
        let behind = strip_left chars.is_space (c ∷ t) in
        let name = take_word chars.is_word behind in
        if chars.is_space c
        then (elim name [
          | [] ↦ none
          | d ∷ word ↦ elim (strip_prefix (d ∷ word) behind) [
            | none ↦ none
            | some rest ↦ some (d ∷ word, rest)
          ]
        ])
        else none
  ]

  parameter : Text → Text × Option Text
  unfolding strip partition
  parameter piece = elim (partition b'=' piece) [
    | none ↦ (strip chars.is_space piece, none)
    | some (pname, default) ↦ (strip chars.is_space pname, some (strip chars.is_space default))
  ]

  parameters : Text → List (Text × Option Text)
  unfolding parameter split_top_commas strip
  parameters inner = elim (strip chars.is_space inner) [
    | [] ↦ []
    | c ∷ t ↦ map parameter (split_top_commas inner)
  ]

  -- A definition with a parameter list, by what the scan of the list found.
  unfoldable pub define_scanned : Text → Option (Text × Text) → Text → ℕ → State → State
  unfolding add_macro parameters strip
  define_scanned name none relpath line s = warn (unterminated_parameters relpath line) s
  define_scanned name (some (inner, after)) relpath line s =
      add_macro
        (record {
          name = name;
          params = some (parameters inner);
          body = strip chars.is_space after;
          file = relpath;
          line = line;
        })
        s

  unfoldable pub define_named : Option (Text × Text) → Text → ℕ → State → State
  unfolding define_scanned add_macro opens_list scan_parens strip
  define_named none relpath line s = warn (malformed_define relpath line) s
  define_named (some (name, rest)) relpath line s =
      if opens_list rest
      then define_scanned name (scan_parens rest) relpath line s
      else add_macro
          (record {
            name = name;
            params = none;
            body = strip chars.is_space rest;
            file = relpath;
            line = line;
          })
          s

  -- `_handle_define`
  unfoldable pub handle_define : Text → Text → ℕ → State → State
  unfolding define_named define_head
  handle_define raw relpath line s = define_named (define_head raw) relpath line s

  unfoldable pub handle_undef : Text → State → State
  unfolding undef_named find_word
  handle_undef arg s = undef_named (find_word chars.is_word arg) s
