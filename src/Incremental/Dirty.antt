-- ===== src/Incremental/Dirty.antt =====
-- `dirty_closure` and `newly_resolvable_includes` of src/hdl_kgraph/incremental.py.
pub mod Dependents
pub mod Closure
use hdl_kgraph.Base.{
  and_then, ℕ, ◌+◌, Bool, true, false, ◌||◌, ◌&&◌, Option, none, some, List, [], ◌∷◌, ◌++◌, Text,
  codes, Dict, keys, length, reverse, map, filter_map, flat_map, filter, strip_prefix, any, has_key,
  insert, lookup, nat_eq, list_eq, ◌==◌, if◌then◌else◌,
}
use hdl_kgraph.Schema.{
  Node, Edge, NodeKind, node_kind_eq, EdgeKind, edge_kind_eq, AttrValue, get_attr, truthy,
}
use hdl_kgraph.Ids.{file_node_id}
use hdl_kgraph.Graph.{MultiDiGraph, data_of}
use hdl_kgraph.Worklist.{run_partial}

-- `_file_relpath`
unfoldable pub file_relpath : Text → Option Text
file_relpath node_id = strip_prefix (codes "file:") node_id

abbrev pub Dependent : Type 0
Dependent = Text × Text

-- The source of an edge as a dependent file with its reason, if it is a file.
abbrev pub with_reason : Text → Text → Option Dependent
with_reason src reason = elim (file_relpath src) [ none ↦ none | some rel ↦ some (rel, reason) ]

unfoldable pub includer : Text → Edge → Option Dependent
includer relpath e =
    if e.kind == EdgeKind.includes then with_reason e.src (codes "includes " ++ relpath) else none

unfoldable pub macro_user : Text → Edge → Option Dependent
macro_user macro_name e =
    if e.kind == EdgeKind.uses_macro then with_reason e.src (codes "uses `" ++ macro_name) else none

module _ (nx : MultiDiGraph) (g : nx.Graph) where
  -- The users of a macro; `none` is the `KeyError` of `graph.nodes[macro_id]["name"]` where the node
  -- has no data.
  users_of : Text → Option Node → Option (List Dependent)
  users_of macro_id none = none
  users_of macro_id (some x) = some (filter_map (macro_user x.name) (nx.in_edges g macro_id))

  pub macro_users : Edge → Option (List Dependent)
  unfolding users_of
  macro_users d =
      if d.kind == EdgeKind.defines_macro then users_of d.dst (nx.node g d.dst) else some []

  -- The loop over the edges that leave the file.
  pub all_macro_users : List Edge → Option (List Dependent)
  unfolding macro_users
  all_macro_users [] = some []
  all_macro_users (d ∷ ds) =
      let rest = all_macro_users ds in
      and_then (macro_users d) (λ users. and_then rest (λ others. some (users ++ others)))

  -- The body of the loop of `dirty_closure` up to the list `dependents`.
  pub dependents : Text → Option (List Dependent)
  unfolding all_macro_users
  dependents relpath =
      let file_id = file_node_id relpath in
      if nx.has_node g file_id
      then and_then (all_macro_users (nx.out_edges g file_id))
          (λ users. some (filter_map (includer relpath) (nx.in_edges g file_id) ++ users))
      else some []

  -- Each round after the first few finds a new file that is the source of an edge, so the seeds and
  -- the edges bound the rounds; `none` is a `KeyError`, or would mean that they did not.
  pub dirty_closure : Dict Text Text → Option (Dict Text Text)
  unfolding dependents
  dirty_closure seeds =
      run_partial dependents (length (keys seeds) + length (nx.edges g)) seeds
        (reverse (keys seeds))

-- `a.endswith(suffix)`
ends_with : Text → Text → Bool
ends_with t suffix = elim (strip_prefix (reverse suffix) (reverse t)) [
  | none ↦ false
  | some _ ↦ true
]

satisfies : Text → Text → Bool
unfolding ends_with
satisfies path_text a = a == path_text || ends_with a (b'/' ∷ path_text)

-- `dirty.setdefault(includer, reason)`
set_default : Dict Text Text → Text → Text → Dict Text Text
set_default dirty k v = if has_key dirty k then dirty else insert dirty k v

is_unresolved_include : Node → Bool
is_unresolved_include x =
    x.kind == NodeKind.include_file && truthy (get_attr x.attrs (codes "unresolved"))

-- `repr` is Python's, of a text.
module _ (nx : MultiDiGraph) (g : nx.Graph) (repr : Text → Text) where
  mark_includers : Text → List Edge → Dict Text Text → Dict Text Text
  unfolding set_default
  mark_includers path_text [] dirty = dirty
  mark_includers path_text (e ∷ es) dirty = mark_includers path_text es (
      if e.kind == EdgeKind.includes
      then (elim (file_relpath e.src) [
        | none ↦ dirty
        | some rel ↦
            set_default dirty rel (codes "include " ++ (repr path_text ++ codes " now resolvable"))
      ])
      else dirty)

  mark_nodes : List Text → List Node → Dict Text Text → Dict Text Text
  unfolding is_unresolved_include satisfies mark_includers
  mark_nodes added [] dirty = dirty
  mark_nodes added (x ∷ xs) dirty = mark_nodes added xs (
      if is_unresolved_include x && any (satisfies x.name) added
      then mark_includers x.name (nx.in_edges g x.id) dirty
      else dirty)

  pub newly_resolvable_includes : List Text → Dict Text Text
  unfolding mark_nodes
  newly_resolvable_includes [] = []
  newly_resolvable_includes (a ∷ added) = mark_nodes (a ∷ added) (nx.nodes g) []
