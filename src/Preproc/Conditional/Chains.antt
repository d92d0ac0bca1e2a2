-- ===== src/Preproc/Conditional/Chains.antt =====
-- The conditional stack of src/hdl_kgraph/parser/preprocessor.py: how many branches of a chain are
-- selected, and what a dead or undecided frame lets through.
use hdl_kgraph.Base.{
  ℕ, ◌+◌, ◌≤◌, ◌≡◌, refl, Bool, true, false, List, [], ◌∷◌, arith, ◌⊎◌, Bool-cases, inl, inr,
}
use hdl_kgraph.Preproc.{Frame}
use hdl_kgraph.Preproc.Conditional.{BranchMode, opened, after_elsif, after_else}

-- A step of a chain behind its `ifdef`: an `elsif` whose name is defined or not, or an `else`.
pub data Branch : Type 0 where
  elsif_branch : Bool → Branch
  else_only : Branch

pub step : BranchMode → Frame → Branch → Frame
step mode f (elsif_branch is_defined) = after_elsif mode is_defined f
step mode f else_only = after_else f

-- The branches of the chain that evaluation selects, the frame's own one included.
abbrev one_if : Bool → ℕ
one_if true = 1
one_if false = 0

pub selections : BranchMode → Frame → List Branch → ℕ
selections mode f [] = one_if f.selected
selections mode f (b ∷ bs) = one_if f.selected + selections mode (step mode f b) bs

pub has_else : List Branch → Bool
has_else [] = false
has_else (else_only ∷ bs) = true
has_else (elsif_branch d ∷ bs) = has_else bs

-- Once a branch was selected, no later one is.
later_none :
    (mode : BranchMode) (f : Frame) (bs : List Branch)
    → f.ever_selected ≡ true
    → selections mode f bs ≡ one_if f.selected
unfolding selections step after_elsif after_else
later_none mode f [] h = refl
later_none mode f (elsif_branch d ∷ bs) h =
    ground (arith, later_none mode (after_elsif mode d f) bs)
later_none mode f (else_only ∷ bs) h = ground (arith, later_none mode (after_else f) bs)

at_most_one :
    (mode : BranchMode) (f : Frame) (bs : List Branch)
    → (f.selected ≡ true → f.ever_selected ≡ true)
    → selections mode f bs ≤ 1
unfolding selections step after_elsif after_else
at_most_one mode f [] h = ground arith
at_most_one mode f (elsif_branch d ∷ bs) h =
    ground
      (arith, at_most_one mode (after_elsif mode d f) bs, later_none mode (after_elsif mode d f) bs)
at_most_one mode f (else_only ∷ bs) h =
    ground (arith, at_most_one mode (after_else f) bs, later_none mode (after_else f) bs)

exactly_one :
    (mode : BranchMode) (f : Frame) (bs : List Branch)
    → f.selected ≡ f.ever_selected
    → has_else bs ≡ true
    → selections mode f bs ≡ 1
unfolding selections step after_elsif after_else has_else
exactly_one mode f [] h e = cc
exactly_one mode f (elsif_branch d ∷ bs) h e =
    ground
      (arith, exactly_one mode (after_elsif mode d f) bs, later_none mode (after_elsif mode d f) bs)
exactly_one mode f (else_only ∷ bs) h e = ground (arith, later_none mode (after_else f) bs)

-- In either mode, a chain that an `ifdef` or `ifndef` opens has at most one selected branch, however
-- many `elsif` and `else` follow; it has no `else`, or exactly one branch is selected.
pub chain_selects_one :
    (mode : BranchMode) (negated is_defined alive : Bool) (bs : List Branch)
    → (selections mode (opened mode negated is_defined alive) bs ≤ 1)
      × ((has_else bs ≡ false) ⊎ (selections mode (opened mode negated is_defined alive) bs ≡ 1))
unfolding opened
chain_selects_one mode negated is_defined alive bs = (
  at_most_one mode (opened mode negated is_defined alive) bs (λ h. h),
  elim (Bool-cases (has_else bs)) [
    | inl e ↦ inr (exactly_one mode (opened mode negated is_defined alive) bs refl e)
    | inr e ↦ inl e
  ],
)
