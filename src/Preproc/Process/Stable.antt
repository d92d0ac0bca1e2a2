-- ===== src/Preproc/Process/Stable.antt =====
-- The induction over a run of the preprocessor: a predicate that each single effect keeps holds
-- after any lines, conditionals, expansions and nested includes.
use hdl_kgraph.Base.{
  ℕ, zero, suc, ◌≡◌, Bool, true, false, Option, none, some, List, [], ◌∷◌, ◌++◌, Text, has_char,
  insert, nat_eq, list_eq, pair_eq, if_intro, Bool-cases, inl, inr,
}
use hdl_kgraph.Preproc.{
  LineOrigin, MacroDef, MacroUse, Frame, State, CharClasses, Warning, warn, note_use,
}
use hdl_kgraph.Preproc.Conditional.{Directive, emitting, ambiguous, handle_conditional, find_word}
use hdl_kgraph.Preproc.Conditional.Keeps.{handle_conditional-keeps}
use hdl_kgraph.Preproc.Expand.{expand}
use hdl_kgraph.Preproc.Expand.Stable.{IsStable, expand-keeps}
use hdl_kgraph.Preproc.Includes.{Files, Options, search, resolve_include, within_allowed, memoized}
use hdl_kgraph.Preproc.Lines.{
  emit_blanks, emit_lines, Line, define_line, conditional_line, undef_line, include_line,
  other_line, classify, split_lines, join_lines,
}
use hdl_kgraph.Preproc.Define.{
  add_macro, define_scanned, define_named, define_head, handle_define, undef_named, handle_undef,
}
use hdl_kgraph.Preproc.Splice.{
  Splice, note_include, note_included, splice_lines, splice_deeper, splice_file, include_resolved,
  include_text, include_named, handle_include,
}
use hdl_kgraph.Preproc.Process.{
  expand_line, define_if, process_line, process_lines, process, close_conditionals, fresh,
  preprocess,
}

-- The effects that a run is made of. `F` holds of the files that lines are put out for.
pub record IsRunStable (files : Files) (options : Options) (F : Text → Type 0) (P : State → Type 0)
    : Type 0 where
  pub on_warn : (w : Warning) (s : State) → P s → P (warn w s)
  pub on_use : (u : MacroUse) (s : State) → P s → P (note_use u s)
  pub on_line :
      (l : Text) (o : LineOrigin) (s : State)
      → F o.file
      → P s
      → P (record s { out = s.out ++ l ∷ []; line_map = s.line_map ++ o ∷ [] })
  pub on_cond : (fs : List Frame) (s : State) → P s → P (record s { cond = fs })
  pub on_define : (m : MacroDef) (s : State) → P s → P (add_macro m s)
  pub on_undef : (n : Text) (s : State) → P s → P (undef_named (some n) s)
  pub on_include :
      (t f : Text) (n : ℕ) (r : Option Text) (s : State) → P s → P (note_include t f n r s)
  -- A header is spliced only behind the test that confines it to the trusted roots.
  pub on_spliced :
      (p : Text) (s : State)
      → within_allowed files options p ≡ true
      → P s
      → P (note_included (files.relpath p) s)
  -- So is the name that its lines are put out for.
  pub on_file : (p : Text) → within_allowed files options p ≡ true → F (files.relpath p)
  -- The memo only ever takes what a search has found.
  pub on_memo :
      (t d : Text) (s : State)
      → P s
      → P (record s { cache = insert s.cache (d, t) (search files options t d) })

module _ (chars : CharClasses) (files : Files) (options : Options) (F : Text → Type 0)
    (P : State → Type 0) (stable : IsRunStable files options F P) where
  expansion : (o : LineOrigin) → IsStable chars o P
  expansion o = record { on_warn = stable.on_warn; on_use = stable.on_use }

  emit_blanks-keeps : (f : Text) (n count : ℕ) (s : State) → F f → P s → P (emit_blanks f n count s)
  unfolding emit_blanks
  emit_blanks-keeps f n zero s b h = h
  emit_blanks-keeps f n (suc count) s b h =
      emit_blanks-keeps f (suc n) count _ b (stable.on_line [] _ s b h)

  emit_lines-keeps :
      (o : LineOrigin) (ls : List Text) (s : State) → F o.file → P s → P (emit_lines o ls s)
  unfolding emit_lines
  emit_lines-keeps o [] s b h = h
  emit_lines-keeps o (l ∷ ls) s b h = emit_lines-keeps o ls _ b (stable.on_line l o s b h)

  define_scanned-keeps :
      (name : Text) (found : Option (Text × Text)) (f : Text) (n : ℕ) (s : State)
      → P s
      → P (define_scanned chars name found f n s)
  unfolding define_scanned
  define_scanned-keeps name none f n s h = stable.on_warn _ s h
  define_scanned-keeps name (some (inner, after)) f n s h = stable.on_define _ s h

  define_named-keeps :
      (found : Option (Text × Text)) (f : Text) (n : ℕ) (s : State)
      → P s
      → P (define_named chars found f n s)
  unfolding define_named
  define_named-keeps none f n s h = stable.on_warn _ s h
  define_named-keeps (some (name, rest)) f n s h =
      if_intro P _ _ _ (define_scanned-keeps name _ f n s h) (stable.on_define _ s h)

  define_if-keeps :
      (b : Bool) (raw f : Text) (n : ℕ) (s : State)
      → P s
      → P (define_if chars files options b raw f n s)
  unfolding define_if handle_define
  define_if-keeps true raw f n s h = define_named-keeps (define_head chars raw) f n s h
  define_if-keeps false raw f n s h = h

  undef_named-keeps : (o : Option Text) (s : State) → P s → P (undef_named o s)
  unfolding undef_named
  undef_named-keeps none s h = h
  undef_named-keeps (some n) s h = stable.on_undef n s h

  -- A nested run that keeps the predicate.
  abbrev SpliceKeeps : Splice → Type 0
  SpliceKeeps none = Unit
  SpliceKeeps (some run) =
      (path f : Text) (ls stack : List Text) (s : State) → F f → P s → P (run path f ls stack s)

  splice_lines-keeps :
      (run : Text → Text → List Text → List Text → State → State) (t p f : Text) (n : ℕ)
      (stack : List Text) (o : Option (List Text)) (s : State)
      → SpliceKeeps (some run)
      → F (files.relpath p)
      → P s
      → P (splice_lines chars files options run t p f n stack o s)
  unfolding splice_lines
  splice_lines-keeps run t p f n stack none s k b h = stable.on_warn _ s h
  splice_lines-keeps run t p f n stack (some ls) s k b h = k _ _ ls _ s b h

  splice_deeper-keeps :
      (splice : Splice) (t p f : Text) (n : ℕ) (stack : List Text) (s : State)
      → within_allowed files options p ≡ true
      → SpliceKeeps splice
      → P s
      → P (splice_deeper chars files options splice t p f n stack s)
  unfolding splice_deeper
  splice_deeper-keeps none t p f n stack s w k h = stable.on_warn _ s h
  splice_deeper-keeps (some run) t p f n stack s w k h =
      splice_lines-keeps run t p f n stack (files.read p) _ k (stable.on_file p w)
        (stable.on_spliced p s w h)

  splice_file-keeps :
      (splice : Splice) (t p f : Text) (n : ℕ) (stack : List Text) (s : State)
      → within_allowed files options p ≡ true
      → SpliceKeeps splice
      → P s
      → P (splice_file chars files options splice t p f n stack s)
  unfolding splice_file
  splice_file-keeps splice t p f n stack s w k h =
      if_intro P _ _ _ (stable.on_warn _ s h) (splice_deeper-keeps splice t p f n stack s w k h)

  include_resolved-keeps :
      (splice : Splice) (t f : Text) (n : ℕ) (stack : List Text) (o : Option Text) (s : State)
      → SpliceKeeps splice
      → P s
      → P (include_resolved chars files options splice t f n stack o s)
  unfolding include_resolved
  include_resolved-keeps splice t f n stack none s k h =
      stable.on_warn _ _ (stable.on_include t f n none s h)
  include_resolved-keeps splice t f n stack (some p) s k h =
      elim (Bool-cases (within_allowed files options p)) [
        | inl e ↦
            rw e (splice_file-keeps splice t p f n stack _ e k (stable.on_include t f n _ s h))
        | inr e ↦ rw e (stable.on_warn _ _ (stable.on_include t f n none s h))
      ]

  -- Where a line of the source stands.
  abbrev at : Text → ℕ → State → LineOrigin
  at f n s = record { file = f; line = n; ambiguous = ambiguous s.cond }

  expanded-keeps :
      (o : LineOrigin) (t : Text) (s : State)
      → P s
      → P (expand chars o options.max_expansion_depth [] t s).1
  expanded-keeps o t s h = expand-keeps chars o P (expansion o) options.max_expansion_depth [] t s h

  include_text-keeps :
      (arg f : Text) (n : ℕ) (s : State) → P s → P (include_text chars files options arg f n s).1
  unfolding include_text
  include_text-keeps arg f n s h =
      if_intro (λ (r : Text × State). P r.1) (has_char b'`' arg)
        (expand chars (at f n s) options.max_expansion_depth [] arg s) (arg, s)
        (expanded-keeps (at f n s) arg s h) h

  memoized-keeps :
      (t d : Text) (o : Option (Option Text)) (s : State)
      → P s
      → P (memoized files options t d o s).1
  unfolding memoized
  memoized-keeps t d none s h = stable.on_memo t d s h
  memoized-keeps t d (some r) s h = h

  include_named-keeps :
      (splice : Splice) (o : Option Text) (path f : Text) (n : ℕ) (stack : List Text) (s : State)
      → SpliceKeeps splice
      → P s
      → P (include_named chars files options splice o path f n stack s)
  unfolding include_named resolve_include
  include_named-keeps splice none path f n stack s k h = stable.on_warn _ s h
  include_named-keeps splice (some t) path f n stack s k h =
      include_resolved-keeps splice t f n stack _ _ k (memoized-keeps t _ _ s h)

  handle_include-keeps :
      (splice : Splice) (arg path f : Text) (n : ℕ) (stack : List Text) (s : State)
      → SpliceKeeps splice
      → P s
      → P (handle_include chars files options splice arg path f n stack s)
  unfolding handle_include
  handle_include-keeps splice arg path f n stack s k h =
      include_named-keeps splice _ path f n stack _ k (include_text-keeps arg f n s h)

  expand_line-keeps :
      (raw f : Text) (n : ℕ) (s : State) → F f → P s → P (expand_line chars files options raw f n s)
  unfolding expand_line
  expand_line-keeps raw f n s b h =
      emit_lines-keeps (at f n s)
        (split_lines (expand chars (at f n s) options.max_expansion_depth [] raw s).0) _ b
        (expanded-keeps (at f n s) raw s h)

  conditional-keeps :
      (d : Directive) (arg f : Text) (n : ℕ) (s : State)
      → P s
      → P (handle_conditional chars options.branch_mode d arg f n s)
  conditional-keeps =
      handle_conditional-keeps chars options.branch_mode P stable.on_warn stable.on_cond

  process_line-keeps :
      (splice : Splice) (path f : Text) (stack : List Text) (n : ℕ) (raw : Text) (ls : List Text)
      (kind : Line) (s : State)
      → SpliceKeeps splice
      → F f
      → P s
      → P (process_line chars files options splice path f stack n raw ls kind s).1
  unfolding process_line handle_undef
  process_line-keeps splice path f stack n raw ls define_line s k b h =
      emit_blanks-keeps f n (suc (join_lines chars raw ls).1) _ b
        (define_if-keeps (emitting s.cond) (join_lines chars raw ls).0 f n s h)
  process_line-keeps splice path f stack n raw ls (conditional_line d arg) s k b h =
      emit_blanks-keeps f n 1 _ b (conditional-keeps d arg f n s h)
  process_line-keeps splice path f stack n raw ls (undef_line arg) s k b h =
      emit_blanks-keeps f n 1 _ b
        (if_intro P _ _ _ (undef_named-keeps (find_word chars.is_word arg) s h) h)
  process_line-keeps splice path f stack n raw ls (include_line arg) s k b h =
      let blank = emit_blanks-keeps f n 1 s b h in
      if_intro P _ _ _ (handle_include-keeps splice arg path f n stack _ k blank) blank
  process_line-keeps splice path f stack n raw ls other_line s k b h =
      if_intro P _ _ _ (expand_line-keeps raw f n s b h) (emit_blanks-keeps f n 1 s b h)

  process_lines-keeps :
      (splice : Splice) (path f : Text) (stack : List Text) (skip n : ℕ) (ls : List Text)
      (s : State)
      → SpliceKeeps splice
      → F f
      → P s
      → P (process_lines chars files options splice path f stack skip n ls s)
  unfolding process_lines
  process_lines-keeps splice path f stack skip n [] s k b h = h
  process_lines-keeps splice path f stack (suc skip) n (l ∷ ls) s k b h =
      process_lines-keeps splice path f stack skip (suc n) ls s k b h
  process_lines-keeps splice path f stack zero n (l ∷ ls) s k b h =
      process_lines-keeps splice path f stack _ (suc n) ls _ k b
        (process_line-keeps splice path f stack n l ls (classify chars l) s k b h)

  pub process-keeps :
      (depth : ℕ) (path f : Text) (ls stack : List Text) (s : State)
      → F f
      → P s
      → P (process chars files options depth path f ls stack s)
  unfolding process
  process-keeps zero path f ls stack s b h =
      process_lines-keeps none path f stack zero 1 ls s tt b h
  process-keeps (suc depth) path f ls stack s b h =
      process_lines-keeps (some (process chars files options depth)) path f stack zero 1 ls s
        (process-keeps depth) b h

  close_conditionals-keeps :
      (f : Text) (fs : List Frame) (s : State)
      → P s
      → P (close_conditionals chars files options f fs s)
  unfolding close_conditionals
  close_conditionals-keeps f [] s h = h
  close_conditionals-keeps f (frame ∷ fs) s h = stable.on_cond [] _ (stable.on_warn _ s h)

  -- What every effect keeps, and what holds as a run starts, holds as it ends.
  pub preprocess-keeps :
      (path : Text) (ls : List Text) (s : State)
      → F (files.relpath path)
      → P (fresh s.table s)
      → P (preprocess chars files options path ls s)
  unfolding preprocess
  preprocess-keeps path ls s b h =
      close_conditionals-keeps _ _ _ (process-keeps _ path _ ls (path ∷ []) _ b h)
