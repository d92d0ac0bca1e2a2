-- ===== src/Preproc/Splice.antt =====
-- `_handle_include` of src/hdl_kgraph/parser/preprocessor.py.
use hdl_kgraph.Base.{
  ℕ, Option, none, some, List, [], ◌∷◌, ◌++◌, Text, contains, has_char, nat_eq, list_eq,
  if◌then◌else◌, list_beq,
}
use hdl_kgraph.Preproc.{
  LineOrigin, State, CharClasses, warn, malformed_include, cannot_resolve, escapes_root,
  include_cycle, include_depth, cannot_read,
}
use hdl_kgraph.Preproc.Conditional.{ambiguous}
use hdl_kgraph.Preproc.Expand.{expand}
use hdl_kgraph.Preproc.Includes.{Files, Options, include_arg, resolve_include, within_allowed}

unfoldable pub note_include : Text → Text → ℕ → Option Text → State → State
note_include path_text relpath line resolved s = record s {
  includes =
      s.includes
      ++ (record { path_text = path_text; file = relpath; line = line; resolved = resolved }) ∷ [];
}

-- `included_relpaths.add(header_rel)`
unfoldable pub note_included : Text → State → State
unfolding contains
note_included header_rel s =
    if contains s.included_relpaths header_rel
    then s
    else record s { included_relpaths = s.included_relpaths ++ header_rel ∷ [] }

-- How an included file is processed: `none` at the depth limit.
abbrev pub Splice : Type 0
Splice = Option (Text → Text → List Text → List Text → State → State)

module _ (chars : CharClasses) (files : Files) (options : Options) where
  -- The text of the header, read or not.
  unfoldable pub splice_lines :
      (Text → Text → List Text → List Text → State → State)
      → Text
      → Text
      → Text
      → ℕ
      → List Text
      → Option (List Text)
      → State
      → State
  splice_lines process path_text resolved relpath line stack none s =
      warn (cannot_read relpath line path_text) s
  splice_lines process path_text resolved relpath line stack (some lines) s =
      process resolved (files.relpath resolved) lines (stack ++ resolved ∷ []) s

  unfoldable pub splice_deeper : Splice → Text → Text → Text → ℕ → List Text → State → State
  unfolding splice_lines note_included
  splice_deeper none path_text resolved relpath line stack s = warn (include_depth relpath line) s
  splice_deeper (some process) path_text resolved relpath line stack s =
      splice_lines process path_text resolved relpath line stack (files.read resolved)
        (note_included (files.relpath resolved) s)

  unfoldable pub splice_file : Splice → Text → Text → Text → ℕ → List Text → State → State
  unfolding splice_deeper contains list_beq
  splice_file splice path_text resolved relpath line stack s =
      if contains stack resolved
      then warn (include_cycle relpath line path_text) s
      else splice_deeper splice path_text resolved relpath line stack s

  -- An include whose resolution is known.
  unfoldable pub include_resolved :
      Splice → Text → Text → ℕ → List Text → Option Text → State → State
  unfolding splice_file note_include within_allowed
  include_resolved splice path_text relpath line stack none s =
      warn (cannot_resolve relpath line path_text) (note_include path_text relpath line none s)
  include_resolved splice path_text relpath line stack (some resolved) s =
      if within_allowed files options resolved
      then splice_file splice path_text resolved relpath line stack
          (note_include path_text relpath line (some (files.relpath resolved)) s)
      else warn (escapes_root relpath line path_text) (note_include path_text relpath line none s)

  -- `` `include `MY_HEADER `` is expanded first.
  unfoldable pub include_text : Text → Text → ℕ → State → Text × State
  unfolding expand has_char ambiguous
  include_text arg relpath line s =
      let origin : LineOrigin = record {
        file = relpath;
        line = line;
        ambiguous = ambiguous s.cond;
      } in
      if has_char b'`' arg
      then expand chars origin options.max_expansion_depth [] arg s
      else (arg, s)

  unfoldable pub include_named : Splice → Option Text → Text → Text → ℕ → List Text → State → State
  unfolding include_resolved resolve_include
  include_named splice none path relpath line stack s = warn (malformed_include relpath line) s
  include_named splice (some path_text) path relpath line stack s =
      let (resolved, s') = resolve_include files options path_text (files.parent path) s in
      include_resolved splice path_text relpath line stack resolved s'

  -- `_handle_include`
  unfoldable pub handle_include : Splice → Text → Text → Text → ℕ → List Text → State → State
  unfolding include_text include_named include_arg
  handle_include splice arg path relpath line stack s =
      let (arg', s') = include_text arg relpath line s in
      include_named splice (include_arg arg') path relpath line stack s'
