-- ===== src/Preproc/Conditional/Keeps.antt =====
-- What `_handle_conditional` leaves alone: a predicate that warnings and a new conditional stack
-- keep.
use hdl_kgraph.Base.{ℕ, Option, none, some, List, [], ◌∷◌, Text}
use hdl_kgraph.Preproc.{Frame, State, CharClasses, Warning, warn}
use hdl_kgraph.Preproc.Conditional.{
  Directive, ifdef, ifndef, elsif, else_branch, endif, BranchMode, handle_conditional,
  warn_nameless, push_frame, at_frame, on_stack,
}

module _ (chars : CharClasses) (mode : BranchMode) (P : State → Type 0)
    (on_warn : (w : Warning) (s : State) → P s → P (warn w s))
    (on_cond : (fs : List Frame) (s : State) → P s → P (record s { cond = fs })) where
  warn_nameless-keeps :
      (d : Directive) (o : Option Text) (f : Text) (n : ℕ) (s : State)
      → P s
      → P (warn_nameless chars mode d o f n s)
  unfolding warn_nameless
  warn_nameless-keeps d none f n s h = on_warn _ s h
  warn_nameless-keeps d (some name) f n s h = h

  at_frame-keeps :
      (d : Directive) (arg : Text) (f : Frame) (rest : List Frame) (s : State)
      → P s
      → P (at_frame chars mode d arg f rest s)
  unfolding at_frame
  at_frame-keeps elsif arg f rest s h = on_cond _ s h
  at_frame-keeps else_branch arg f rest s h = on_cond _ s h
  at_frame-keeps ifdef arg f rest s h = on_cond _ s h
  at_frame-keeps ifndef arg f rest s h = on_cond _ s h
  at_frame-keeps endif arg f rest s h = on_cond _ s h

  on_stack-keeps :
      (d : Directive) (arg f : Text) (n : ℕ) (fs : List Frame) (s : State)
      → P s
      → P (on_stack chars mode d arg f n fs s)
  unfolding on_stack
  on_stack-keeps d arg f n [] s h = on_warn _ s h
  on_stack-keeps d arg f n (frame ∷ rest) s h = at_frame-keeps d arg frame rest s h

  pub handle_conditional-keeps :
      (d : Directive) (arg f : Text) (n : ℕ) (s : State)
      → P s
      → P (handle_conditional chars mode d arg f n s)
  unfolding handle_conditional push_frame
  handle_conditional-keeps ifdef arg f n s h = on_cond _ _ (warn_nameless-keeps ifdef _ f n s h)
  handle_conditional-keeps ifndef arg f n s h = on_cond _ _ (warn_nameless-keeps ifndef _ f n s h)
  handle_conditional-keeps elsif arg f n s h = on_stack-keeps elsif arg f n _ s h
  handle_conditional-keeps else_branch arg f n s h = on_stack-keeps else_branch arg f n _ s h
  handle_conditional-keeps endif arg f n s h = on_stack-keeps endif arg f n _ s h
