-- ===== src/Preproc/Conditional.antt =====
-- The conditional stack of src/hdl_kgraph/parser/preprocessor.py: `_emitting`, `_ambiguous` and
-- `_handle_conditional`.
pub mod Chains
pub mod Keeps
use hdl_kgraph.Base.{
  ℕ, Bool, true, false, not, ◌||◌, ◌&&◌, Option, none, some, List, [], ◌∷◌, ◌++◌, Text, codes, all,
  any, if◌then◌else◌, list_eq, nat_eq, ◌==◌,
}
use hdl_kgraph.Preproc.{
  Frame, State, MacroTable, CharClasses, Warning, without_macro_name, without_matching_ifdef, warn,
}
use hdl_kgraph.Preproc.Table.{defined}

-- `name` of a conditional directive.
pub data Directive : Type 0 where
  ifdef ifndef elsif else_branch endif : Directive

unfoldable pub directive_text : Directive → Text
directive_text ifdef = codes "ifdef"
directive_text ifndef = codes "ifndef"
directive_text elsif = codes "elsif"
directive_text else_branch = codes "else"
directive_text endif = codes "endif"

pub data BranchMode : Type 0 where
  select both : BranchMode

abbrev pub is_both : BranchMode → Bool
is_both select = false
is_both both = true

unfoldable pub frame_emits : Frame → Bool
frame_emits f = not f.dead && (f.selected || f.ambiguous)

-- `_emitting`
unfoldable pub emitting : List Frame → Bool
unfolding frame_emits
emitting cond = all frame_emits cond

-- `_ambiguous`
unfoldable pub ambiguous : List Frame → Bool
ambiguous cond = any (λ f. not f.dead && (f.ambiguous && not f.selected)) cond

-- The longest word at the head of a text.
unfoldable pub take_word : (ℕ → Bool) → Text → Text
take_word is_word [] = []
take_word is_word (c ∷ t) = if is_word c then c ∷ take_word is_word t else []

-- `_NAME_RE.search(arg)`: the first word of the text.
unfoldable pub find_word : (ℕ → Bool) → Text → Option Text
unfolding take_word
find_word is_word [] = none
find_word is_word (c ∷ t) =
    if is_word c then some (c ∷ take_word is_word t) else find_word is_word t

-- `tested is not None and self.macros.defined(tested.group(0))`
unfoldable pub tests_defined : MacroTable → Option Text → Bool
tests_defined table none = false
tests_defined table (some name) = defined table name

-- The frame that `ifdef` or `ifndef` pushes.
unfoldable pub opened : BranchMode → Bool → Bool → Bool → Frame
opened mode negated is_defined alive =
    let picked = if negated then not is_defined else is_defined in
    record {
      dead = not alive;
      selected = picked;
      ever_selected = picked;
      ambiguous = is_both mode && (not is_defined && alive);
    }

-- What `elsif` makes of the innermost frame.
unfoldable pub after_elsif : BranchMode → Bool → Frame → Frame
after_elsif mode is_defined f =
    let picked = not f.ever_selected && is_defined in
    record f {
      selected = picked;
      ever_selected = f.ever_selected || picked;
      ambiguous = f.ambiguous || is_both mode && (not is_defined && not f.dead);
    }

-- What `else` makes of it.
unfoldable pub after_else : Frame → Frame
after_else f = record f { selected = not f.ever_selected; ever_selected = true }

module _ (chars : CharClasses) (mode : BranchMode) where
  warn_nameless : Directive → Option Text → Text → ℕ → State → State
  unfolding directive_text
  warn_nameless d none relpath line s = warn (without_macro_name relpath line (directive_text d)) s
  warn_nameless d (some name) relpath line s = s

  push_frame : Bool → Option Text → State → State
  unfolding opened tests_defined emitting
  push_frame negated tested s = record s {
    cond = opened mode negated (tests_defined s.table tested) (emitting s.cond) ∷ s.cond;
  }

  -- `elsif`, `else` and `endif` at the innermost frame.
  at_frame : Directive → Text → Frame → List Frame → State → State
  unfolding after_elsif after_else tests_defined find_word
  at_frame elsif arg f rest s = record s {
    cond = after_elsif mode (tests_defined s.table (find_word chars.is_word arg)) f ∷ rest;
  }
  at_frame else_branch arg f rest s = record s { cond = after_else f ∷ rest }
  at_frame _ arg f rest s = record s { cond = rest }

  on_stack : Directive → Text → Text → ℕ → List Frame → State → State
  unfolding at_frame directive_text
  on_stack d arg relpath line [] s = warn (without_matching_ifdef relpath line (directive_text d)) s
  on_stack d arg relpath line (f ∷ rest) s = at_frame d arg f rest s

  -- `_handle_conditional`
  unfoldable pub handle_conditional : Directive → Text → Text → ℕ → State → State
  unfolding warn_nameless push_frame on_stack find_word
  handle_conditional ifdef arg relpath line s =
      let tested = find_word chars.is_word arg in
      push_frame false tested (warn_nameless ifdef tested relpath line s)
  handle_conditional ifndef arg relpath line s =
      let tested = find_word chars.is_word arg in
      push_frame true tested (warn_nameless ifndef tested relpath line s)
  handle_conditional d arg relpath line s = on_stack d arg relpath line s.cond s
