-- ===== src/Ir.antt =====
-- The pass-1 result of a file: `UnresolvedRef` and `FileIR` of src/hdl_kgraph/parser/base.py.
mod Samples
use hdl_kgraph.Base.{
  ℕ, suc, ◌≡◌, ◌≤◌, List, [], ◌∷◌, ◌++◌, Text, length, ltb, if◌then◌else◌, arith, length-append,
  take, ◌+◌, sym, take_all, ◌∙◌, Bool-cases, inl, inr, take-append,
}
use mathlib.Core.List.{append-nil, append_assoc}
use hdl_kgraph.Schema.{Node, Edge, EdgeKind, Attrs}

abbrev pub max_parse_errors : ℕ
max_parse_errors = 20

pub record UnresolvedRef : Type 0 where
  pub edge_kind : EdgeKind
  pub src_id : Text
  pub target_name : Text
  pub line_span : ℕ × ℕ
  pub attrs : Attrs
  pub confidence : ℕ

pub record FileIr : Type 0 where
  pub path : Text
  pub nodes : List Node
  pub local_edges : List Edge
  pub unresolved_refs : List UnresolvedRef
  pub parse_error_count : ℕ
  pub parse_errors : List Text

pub record_parse_error : FileIr → Text → FileIr
record_parse_error ir message = record ir {
  parse_error_count = suc ir.parse_error_count;
  parse_errors =
      if ltb (length ir.parse_errors) max_parse_errors
      then ir.parse_errors ++ message ∷ []
      else ir.parse_errors;
}

-- `record_parse_error` for each message in turn.
pub record_parse_errors : FileIr → List Text → FileIr
record_parse_errors ir [] = ir
record_parse_errors ir (m ∷ ms) = record_parse_errors (record_parse_error ir m) ms

counts :
    (ir : FileIr) (ms : List Text)
    → (record_parse_errors ir ms).parse_error_count ≡ ir.parse_error_count + length ms
unfolding record_parse_errors record_parse_error
counts ir [] = omega arith
counts ir (m ∷ ms) = omega (arith, counts (record_parse_error ir m) ms)

abbrev keep : List Text → Text → List Text
keep es m = if ltb (length es) max_parse_errors then es ++ m ∷ [] else es

take-keep :
    (es : List Text) (m : Text) (ms : List Text)
    → length es ≤ max_parse_errors
    → take max_parse_errors (keep es m ++ ms) ≡ take max_parse_errors (es ++ m ∷ ms)
take-keep es m ms h = elim (Bool-cases (ltb (length es) max_parse_errors)) [
  | inl room ↦ rw room (rw (append_assoc es (m ∷ []) ms))
  | inr full ↦ rw full (
      take-append max_parse_errors es ms (ground arith)
      ∙ sym (take-append max_parse_errors es (m ∷ ms) (ground arith)))
]

length-keep :
    (es : List Text) (m : Text)
    → length es ≤ max_parse_errors
    → length (keep es m) ≤ max_parse_errors
length-keep es m h = ground (arith, length-append es (m ∷ []))

details :
    (ir : FileIr) (ms : List Text)
    → length ir.parse_errors ≤ max_parse_errors
    → (record_parse_errors ir ms).parse_errors ≡ take max_parse_errors (ir.parse_errors ++ ms)
unfolding record_parse_errors record_parse_error
details ir [] h = rw append-nil (sym (take_all max_parse_errors ir.parse_errors h))
details ir (m ∷ ms) h =
    details (record_parse_error ir m) ms (length-keep ir.parse_errors m h)
    ∙ take-keep ir.parse_errors m ms h

-- From a result with at most twenty details, after any messages the count is exact, and the details
-- are the first twenty of all.
pub record_parse_errors_lem :
    (ir : FileIr) (ms : List Text)
    → length ir.parse_errors ≤ max_parse_errors
    → ((record_parse_errors ir ms).parse_error_count ≡ ir.parse_error_count + length ms)
      × ((record_parse_errors ir ms).parse_errors ≡ take max_parse_errors (ir.parse_errors ++ ms))
record_parse_errors_lem ir ms h = (counts ir ms, details ir ms h)
