-- ===== src/Schema/LanguageEnum.antt =====
-- `Language` of src/hdl_kgraph/schema.py.
use hdl_kgraph.Base.{
  ◌≡◌, refl, ap, ◌↔◌, Bool, true, Option, none, some, List, [], ◌∷◌, Text, codes, Eq, ◌==◌, ==_iff,
  nat_eq, list_eq, list_beq, if◌then◌else◌,
}

pub data Language : Type 0 where
  verilog systemverilog vhdl c cpp python firrtl perl : Language
  tcl sln unknown : Language

-- The text of the member, `Language.X.value`.
unfoldable pub value : Language → Text
value Language.verilog = codes "verilog"
value Language.systemverilog = codes "systemverilog"
value Language.vhdl = codes "vhdl"
value Language.c = codes "c"
value Language.cpp = codes "cpp"
value Language.python = codes "python"
value Language.firrtl = codes "firrtl"
value Language.perl = codes "perl"
value Language.tcl = codes "tcl"
value Language.sln = codes "sln"
value Language.unknown = codes "unknown"

-- The members in the order of the class body.
abbrev members : List Language
members =
    Language.verilog ∷ Language.systemverilog ∷ Language.vhdl ∷ Language.c ∷ Language.cpp
    ∷ Language.python ∷ Language.firrtl ∷ Language.perl ∷ Language.tcl ∷ Language.sln
    ∷ Language.unknown ∷ []

find : Text → List Language → Option Language
find t [] = none
find t (k ∷ ks) = if value k == t then some k else find t ks

-- `Language(text)`: the member with that value, and `none` for its `ValueError`.
unfoldable pub from_value : Text → Option Language
unfolding value find list_beq
from_value t = find t members

pub from_value-value : (k : Language) → from_value (value k) ≡ some k
unfolding from_value
from_value-value Language.verilog = refl
from_value-value Language.systemverilog = refl
from_value-value Language.vhdl = refl
from_value-value Language.c = refl
from_value-value Language.cpp = refl
from_value-value Language.python = refl
from_value-value Language.firrtl = refl
from_value-value Language.perl = refl
from_value-value Language.tcl = refl
from_value-value Language.sln = refl
from_value-value Language.unknown = refl

value_injective : (a b : Language) → value a ≡ value b → a ≡ b
value_injective a b h = cc (from_value-value a, from_value-value b, h)

pub beq : Language → Language → Bool
beq a b = value a == value b

pub beq_iff : (a b : Language) → (beq a b ≡ true) ↔ (a ≡ b)
unfolding beq
beq_iff a b = (λ h. value_injective a b ((==_iff _ _).0 h), λ e. (==_iff _ _).1 (ap value e))

-- `is` on members.
instance abbrev pub language_eq : Eq Language
language_eq = record { beq = beq; beq_iff = beq_iff }
