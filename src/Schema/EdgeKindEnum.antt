-- ===== src/Schema/EdgeKindEnum.antt =====
-- `EdgeKind` of src/hdl_kgraph/schema.py.
use hdl_kgraph.Base.{
  ◌≡◌, refl, ap, ◌↔◌, Bool, true, Option, none, some, List, [], ◌∷◌, Text, codes, Eq, ◌==◌, ==_iff,
  nat_eq, list_eq, list_beq, if◌then◌else◌,
}

pub data EdgeKind : Type 0 where
  declares instantiates connects parameterizes imports includes defines_macro uses_macro : EdgeKind
  extends implements binds uses_package drives reads clocked_by resets : EdgeKind
  asserts_on covers test_covers foreign_binds generated_from constrains references_file invokes :
      EdgeKind

-- The text of the member, `EdgeKind.X.value`.
unfoldable pub value : EdgeKind → Text
value EdgeKind.declares = codes "declares"
value EdgeKind.instantiates = codes "instantiates"
value EdgeKind.connects = codes "connects"
value EdgeKind.parameterizes = codes "parameterizes"
value EdgeKind.imports = codes "imports"
value EdgeKind.includes = codes "includes"
value EdgeKind.defines_macro = codes "defines_macro"
value EdgeKind.uses_macro = codes "uses_macro"
value EdgeKind.extends = codes "extends"
value EdgeKind.implements = codes "implements"
value EdgeKind.binds = codes "binds"
value EdgeKind.uses_package = codes "uses_package"
value EdgeKind.drives = codes "drives"
value EdgeKind.reads = codes "reads"
value EdgeKind.clocked_by = codes "clocked_by"
value EdgeKind.resets = codes "resets"
value EdgeKind.asserts_on = codes "asserts_on"
value EdgeKind.covers = codes "covers"
value EdgeKind.test_covers = codes "test_covers"
value EdgeKind.foreign_binds = codes "foreign_binds"
value EdgeKind.generated_from = codes "generated_from"
value EdgeKind.constrains = codes "constrains"
value EdgeKind.references_file = codes "references_file"
value EdgeKind.invokes = codes "invokes"

-- The members in the order of the class body.
abbrev members : List EdgeKind
members =
    EdgeKind.declares ∷ EdgeKind.instantiates ∷ EdgeKind.connects ∷ EdgeKind.parameterizes
    ∷ EdgeKind.imports ∷ EdgeKind.includes ∷ EdgeKind.defines_macro ∷ EdgeKind.uses_macro
    ∷ EdgeKind.extends ∷ EdgeKind.implements ∷ EdgeKind.binds ∷ EdgeKind.uses_package
    ∷ EdgeKind.drives ∷ EdgeKind.reads ∷ EdgeKind.clocked_by ∷ EdgeKind.resets ∷ EdgeKind.asserts_on
    ∷ EdgeKind.covers ∷ EdgeKind.test_covers ∷ EdgeKind.foreign_binds ∷ EdgeKind.generated_from
    ∷ EdgeKind.constrains ∷ EdgeKind.references_file ∷ EdgeKind.invokes ∷ []

find : Text → List EdgeKind → Option EdgeKind
find t [] = none
find t (k ∷ ks) = if value k == t then some k else find t ks

-- `EdgeKind(text)`: the member with that value, and `none` for its `ValueError`.
unfoldable pub from_value : Text → Option EdgeKind
unfolding value find list_beq
from_value t = find t members

pub from_value-value : (k : EdgeKind) → from_value (value k) ≡ some k
unfolding from_value
from_value-value EdgeKind.declares = refl
from_value-value EdgeKind.instantiates = refl
from_value-value EdgeKind.connects = refl
from_value-value EdgeKind.parameterizes = refl
from_value-value EdgeKind.imports = refl
from_value-value EdgeKind.includes = refl
from_value-value EdgeKind.defines_macro = refl
from_value-value EdgeKind.uses_macro = refl
from_value-value EdgeKind.extends = refl
from_value-value EdgeKind.implements = refl
from_value-value EdgeKind.binds = refl
from_value-value EdgeKind.uses_package = refl
from_value-value EdgeKind.drives = refl
from_value-value EdgeKind.reads = refl
from_value-value EdgeKind.clocked_by = refl
from_value-value EdgeKind.resets = refl
from_value-value EdgeKind.asserts_on = refl
from_value-value EdgeKind.covers = refl
from_value-value EdgeKind.test_covers = refl
from_value-value EdgeKind.foreign_binds = refl
from_value-value EdgeKind.generated_from = refl
from_value-value EdgeKind.constrains = refl
from_value-value EdgeKind.references_file = refl
from_value-value EdgeKind.invokes = refl

value_injective : (a b : EdgeKind) → value a ≡ value b → a ≡ b
value_injective a b h = cc (from_value-value a, from_value-value b, h)

pub beq : EdgeKind → EdgeKind → Bool
beq a b = value a == value b

pub beq_iff : (a b : EdgeKind) → (beq a b ≡ true) ↔ (a ≡ b)
unfolding beq
beq_iff a b = (λ h. value_injective a b ((==_iff _ _).0 h), λ e. (==_iff _ _).1 (ap value e))

-- `is` on members.
instance abbrev pub edge_kind_eq : Eq EdgeKind
edge_kind_eq = record { beq = beq; beq_iff = beq_iff }
