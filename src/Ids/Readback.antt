-- ===== src/Ids/Readback.antt =====
-- src/hdl_kgraph/ids.py: what `parse_node_id` reads back from the ids that the other functions build.
use hdl_kgraph.Base.{
  ◌≡◌, ◌≢◌, ◌∙◌, refl, partition_double-join, partition_double-join_three, false, some, [], ◌∷◌,
  ◌++◌, Text, codes, nat_eq, list_eq, has_char, partition-append, partition_double-append, arith,
  after_last, before_first,
}
use hdl_kgraph.Schema.{NodeKind}
use hdl_kgraph.Schema.NodeKindEnum.{value, from_value-value}
use hdl_kgraph.Ids.{
  file_node_id, decl_node_id, stub_node_id, elab_node_id, parse_node_id, with_kind, parse_prefixed,
  library_node_id, filelist_node_id,
}

with_kind-value : (k : NodeKind) (t : Text) → with_kind (value k) t ≡ some (k, t)
unfolding with_kind
with_kind-value k t = rw (from_value-value k, with_kind)

abbrev NoColon : Text → Type 0
NoColon t = has_char b':' t ≡ false

value-NoColon : (k : NodeKind) → NoColon (value k)
unfolding value has_char
value-NoColon NodeKind.file = refl
value-NoColon _ = refl

-- A declaration id whose relpath has no colon reads back as its kind, with the last segment of the
-- dotted scope before any `@`, whatever the kind and the scope.
pub parse-decl_node_id :
    (relpath : Text) (kind : NodeKind) (scope : Text)
    → has_char b':' relpath ≡ false
    → parse_node_id (decl_node_id relpath kind scope)
      ≡ some (kind, after_last b'.' (before_first b'@' scope))
unfolding parse_node_id decl_node_id
parse-decl_node_id relpath kind scope h = ground (
  arith,
  partition_double-append b':' relpath (value kind ++ b':' ∷ scope) h,
  partition-append b':' (value kind) scope (value-NoColon kind),
  with_kind-value kind (after_last b'.' (before_first b'@' scope)),
)

kind_not_empty : (k : NodeKind) → value k ≢ []
unfolding value
kind_not_empty NodeKind.file = λ h. cc
kind_not_empty _ = λ h. cc

-- The class word of an id, with what `partition` finds behind it.
classed :
    (class : Text) (kind : NodeKind) (name : Text)
    → has_char b':' class ≡ false
    → has_char b':' name ≡ false
    → parse_node_id (class ++ b':' ∷ (value kind ++ b':' ∷ name))
      ≡ parse_prefixed class (value kind ++ b':' ∷ name)
unfolding parse_node_id
classed class kind name hc hn = ground (
  arith,
  partition_double-join_three b':' class (value kind) name hc (value-NoColon kind)
      (kind_not_empty kind) hn,
  partition-append b':' class (value kind ++ b':' ∷ name) hc,
)

-- A stub id whose name has no colon reads back as its kind and its name.
pub parse-stub_node_id :
    (kind : NodeKind) (name : Text)
    → has_char b':' name ≡ false
    → parse_node_id (stub_node_id kind name) ≡ some (kind, name)
unfolding stub_node_id parse_prefixed has_char
parse-stub_node_id kind name h =
    classed (codes "unresolved") kind name refl h
    ∙ rw (partition-append b':' (value kind) name (value-NoColon kind)) (with_kind-value kind name)

-- An elaborated id whose path has no colon reads back as its kind and the last segment of the path.
pub parse-elab_node_id :
    (kind : NodeKind) (path : Text)
    → has_char b':' path ≡ false
    → parse_node_id (elab_node_id kind path) ≡ some (kind, after_last b'.' path)
unfolding elab_node_id parse_prefixed has_char
parse-elab_node_id kind path h =
    classed (codes "elab") kind path refl h
    ∙ rw (partition-append b':' (value kind) path (value-NoColon kind)) (with_kind-value kind _)

plain :
    (class rest : Text)
    → has_char b':' class ≡ false
    → has_char b':' rest ≡ false
    → parse_node_id (class ++ b':' ∷ rest) ≡ parse_prefixed class rest
unfolding parse_node_id
plain class rest hc hr =
    ground (arith, partition_double-join b':' class rest hc hr, partition-append b':' class rest hc)

-- A FILE, FILELIST or LIBRARY id whose payload has no colon reads back as its kind, with the last
-- path segment for the first two and the name itself for the third.
pub parse_plain_ids :
    (path : Text)
    → has_char b':' path ≡ false
    → (parse_node_id (file_node_id path) ≡ some (NodeKind.file, after_last b'/' path))
      × (parse_node_id (filelist_node_id path) ≡ some (NodeKind.filelist, after_last b'/' path))
      × (parse_node_id (library_node_id path) ≡ some (NodeKind.library, path))
unfolding file_node_id filelist_node_id library_node_id parse_prefixed has_char
parse_plain_ids path h = (
  plain (codes "file") path refl h,
  plain (codes "filelist") path refl h,
  plain (codes "library") path refl h,
)
