-- ===== src/Schema.antt =====
-- src/hdl_kgraph/schema.py: the node and edge types that every other part speaks in.
-- A confidence is counted in tenths, so 1.0 is 10; the code only compares and copies them. The
-- values of `attrs` are the shapes that the parsers store there.
pub mod NodeKindEnum
pub mod EdgeKindEnum
pub mod LanguageEnum
pub use NodeKindEnum.{NodeKind, node_kind_eq}
pub use EdgeKindEnum.{EdgeKind, edge_kind_eq}
pub use LanguageEnum.{Language, language_eq}
use hdl_kgraph.Base.{
  ℕ, Bool, true, false, not, Option, none, some, List, [], ◌∷◌, Text, Dict, lookup, list_eq, nat_eq,
  ◌==◌,
}

abbrev pub confidence_resolved : ℕ
confidence_resolved = 10

abbrev pub confidence_unique_match : ℕ
confidence_unique_match = 8

abbrev pub confidence_ambiguous : ℕ
confidence_ambiguous = 6

abbrev pub confidence_heuristic : ℕ
confidence_heuristic = 4

pub data AttrValue : Type 0 where
  null : AttrValue
  flag : Bool → AttrValue
  num : ℕ → AttrValue
  str : Text → AttrValue
  strs : List Text → AttrValue
  span : ℕ × ℕ → AttrValue

-- `bool(value)`
unfoldable pub truthy : AttrValue → Bool
truthy null = false
truthy (flag b) = b
truthy (num n) = not (n == 0)
truthy (str []) = false
truthy (str (c ∷ t)) = true
truthy (strs []) = false
truthy (strs (t ∷ ts)) = true
truthy (span lines) = true

abbrev pub Attrs : Type 0
Attrs = Dict Text AttrValue

-- `attrs.get(key)`, where a missing key reads as `None`.
unfoldable pub get_attr : Attrs → Text → AttrValue
get_attr attrs key = elim (lookup attrs key) [ none ↦ null | some v ↦ v ]

pub record Node : Type 0 where
  pub id : Text
  pub kind : NodeKind
  pub name : Text
  pub qualified_name : Text
  pub file : Text
  pub line_span : ℕ × ℕ
  pub language : Language
  pub attrs : Attrs

pub record Edge : Type 0 where
  pub src : Text
  pub dst : Text
  pub kind : EdgeKind
  pub confidence : ℕ
  pub attrs : Attrs
