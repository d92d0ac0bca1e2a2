-- ===== src/Ids.antt =====
-- src/hdl_kgraph/ids.py: the node-id scheme and its reader.
pub mod Readback
mod Samples
use hdl_kgraph.Base.{
  ℕ, Bool, true, false, Option, none, some, List, [], ◌∷◌, ◌++◌, Text, codes, ◌==◌, nat_eq, list_eq,
  if◌then◌else◌, partition, partition_double, before_first, after_last, list_beq,
}
use hdl_kgraph.Schema.{NodeKind}
use hdl_kgraph.Schema.NodeKindEnum.{value, from_value}

unfoldable pub file_node_id : Text → Text
file_node_id relpath = codes "file:" ++ relpath

unfoldable pub filelist_node_id : Text → Text
filelist_node_id relpath = codes "filelist:" ++ relpath

unfoldable pub library_node_id : Text → Text
library_node_id name = codes "library:" ++ name

unfoldable pub decl_node_id : Text → NodeKind → Text → Text
decl_node_id relpath kind scope_path =
    relpath ++ (codes "::" ++ (value kind ++ (codes ":" ++ scope_path)))

unfoldable pub stub_node_id : NodeKind → Text → Text
stub_node_id kind name = codes "unresolved:" ++ (value kind ++ (codes ":" ++ name))

unfoldable pub elab_node_id : NodeKind → Text → Text
elab_node_id kind hier_path = codes "elab:" ++ (value kind ++ (codes ":" ++ hier_path))

-- `try: NodeKind(text) … except ValueError: return None`
with_kind : Text → Text → Option (NodeKind × Text)
with_kind kind_text name = elim (from_value kind_text) [ none ↦ none | some k ↦ some (k, name) ]

-- What stands behind the first `::`.
parse_declaration : Text → Option (NodeKind × Text)
unfolding with_kind
parse_declaration rest = elim (partition b':' rest) [
  | none ↦ none
  | some (kind_text, scope) ↦ with_kind kind_text (after_last b'.' (before_first b'@' scope))
]

-- The ids whose first word names their class.
parse_prefixed : Text → Text → Option (NodeKind × Text)
unfolding with_kind list_beq
parse_prefixed prefix rest =
    if prefix == codes "file"
    then some (NodeKind.file, after_last b'/' rest)
    else if prefix == codes "filelist"
    then some (NodeKind.filelist, after_last b'/' rest)
    else if prefix == codes "library"
    then some (NodeKind.library, rest)
    else if prefix == codes "macro"
    then some (NodeKind.macro, before_first b'@' rest)
    else if prefix == codes "unresolved"
    then (elim (partition b':' rest) [
      | none ↦ none
      | some (kind_text, name) ↦ with_kind kind_text name
    ])
    else if prefix == codes "elab"
    then (elim (partition b':' rest) [
      | none ↦ none
      | some (kind_text, name) ↦ with_kind kind_text (after_last b'.' name)
    ])
    else none

pub parse_node_id : Text → Option (NodeKind × Text)
unfolding parse_declaration parse_prefixed
parse_node_id node_id = elim (partition_double b':' node_id) [
  | some (_, rest) ↦ parse_declaration rest
  | none ↦ elim (partition b':' node_id) [
    | none ↦ none
    | some (prefix, rest) ↦ parse_prefixed prefix rest
  ]
]
