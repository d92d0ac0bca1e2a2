-- ===== src/Linker/Scopes.antt =====
-- The namespace of a design unit: `_modules_named`, `_scope_index_for` and `_scoped_signal_target` of
-- src/hdl_kgraph/graph/builder.py.
pub mod Signals
pub mod Growth
use hdl_kgraph.Base.{
  leb, length, Bool, not, ◌||◌, ◌&&◌, Option, none, some, List, [], ◌∷◌, ◌++◌, map, Text, codes,
  Dict, lookup, insert, filter, nat_eq, list_eq, pair_eq, ◌==◌, if◌then◌else◌,
}
use hdl_kgraph.Schema.{
  Node, NodeKind, node_kind_eq, AttrValue, get_attr, truthy, confidence_resolved,
  confidence_ambiguous,
}
use hdl_kgraph.Graph.{MultiDiGraph}
use hdl_kgraph.Linker.Store.{LinkState, get_list, obj_of, stub_child}
use hdl_kgraph.Linker.Targets.{Scored, text_attr, filter_library, named}

-- A name with the declarations that it can mean.
abbrev pub ScopeIndex : Type 0
ScopeIndex = Dict Text (List Node)

-- `index[x.name].append(x)`
add_child : Node → ScopeIndex → ScopeIndex
unfolding get_list
add_child x index = insert index x.name (get_list (lookup index x.name) ++ x ∷ [])

add_children : List Node → ScopeIndex → ScopeIndex
unfolding add_child
add_children [] index = index
add_children (x ∷ xs) index = add_children xs (add_child x index)

-- `n.kind in _SIGNAL_KINDS`
pub is_signal : Node → Bool
is_signal x = x.kind == NodeKind.port || x.kind == NodeKind.signal

pub is_port : Node → Bool
is_port x = x.kind == NodeKind.port

-- `a or b` on lists of nodes.
pub selected_or : List Node → List Node → List Node
selected_or [] ys = ys
selected_or (x ∷ xs) ys = x ∷ xs

-- One net for a port that is declared again, and else every declaration.
by_ports : List Node → List Node → Scored
by_ports selected (p ∷ []) = (p.id ∷ [], confidence_resolved)
by_ports selected ports = (map (λ x. x.id) selected, confidence_ambiguous)

by_selected : List Node → Scored
unfolding by_ports is_port
by_selected (x ∷ []) = (x.id ∷ [], confidence_resolved)
by_selected selected = by_ports selected (filter is_port selected)

-- The targets among the signals of a name.
pub signal_targets : List Node → Scored
unfolding by_selected selected_or
signal_targets signals = by_selected (
    selected_or (filter (λ x. not (truthy (get_attr x.attrs (codes "conditional")))) signals)
      signals)

module _ (nx : MultiDiGraph) (lower : Text → Text) (str : AttrValue → Text) where
  exact_or_folded : List Text → Text → LinkState nx → List Text
  unfolding get_list
  exact_or_folded (c ∷ cs) name s = c ∷ cs
  exact_or_folded [] name s =
      get_list (lookup s.definitions_ci (NodeKind.module_kind, lower name))
      ++ get_list (lookup s.definitions_ci (NodeKind.entity, lower name))

  -- `_modules_named`
  pub modules_named : Text → LinkState nx → List Text
  unfolding exact_or_folded
  modules_named name s =
      exact_or_folded (named nx lower str s (NodeKind.module_kind ∷ NodeKind.entity ∷ []) name) name
        s

  children_of : LinkState nx → Text → List Node
  unfolding get_list
  children_of s id = get_list (lookup s.children id)

  -- The children of a scope, each with the members of an enumeration behind it.
  flattened : LinkState nx → List Node → List Node
  unfolding children_of
  flattened s [] = []
  flattened s (x ∷ xs) =
      x ∷ ((if x.kind == NodeKind.enum then children_of s x.id else []) ++ flattened s xs)

  index_scopes : LinkState nx → List Text → ScopeIndex → ScopeIndex
  unfolding add_children flattened
  index_scopes s [] index = index
  index_scopes s (scope ∷ scopes) index =
      index_scopes s scopes (add_children (flattened s (children_of s scope)) index)

  -- An architecture sees the ports and generics of its entity.
  scopes_of : LinkState nx → Text → List Text
  scopes_of s unit_id =
      let unit = obj_of nx lower str s unit_id in
      let entity = get_attr unit.attrs (codes "of_entity") in
      if unit.kind == NodeKind.architecture && truthy entity
      then unit_id
        ∷ filter_library nx lower str s (named nx lower str s (NodeKind.entity ∷ []) (str entity))
            (text_attr unit.attrs (codes "library")) unit_id
      else unit_id ∷ []

  -- What narrowing by a library looks up in `node_obj`.
  library_read : List Text → Option Text → List Text
  library_read cs none = []
  library_read cs (some library) = if leb (length cs) 1 then [] else cs

  unit_read : Text → LinkState nx → List Text
  unfolding library_read
  unit_read unit_id s =
      let unit = obj_of nx lower str s unit_id in
      let entity = get_attr unit.attrs (codes "of_entity") in
      if unit.kind == NodeKind.architecture && truthy entity
      then unit_id
        ∷ library_read (named nx lower str s (NodeKind.entity ∷ []) (str entity))
            (text_attr unit.attrs (codes "library"))
      else unit_id ∷ []

  memoized_read : Option ScopeIndex → Text → LinkState nx → List Text
  unfolding unit_read
  memoized_read (some index) unit_id s = []
  memoized_read none unit_id s = unit_read unit_id s

  -- The ids that `_scope_index_for` looks up in `node_obj`: none where the memo has the unit.
  pub scope_read : Text → LinkState nx → List Text
  unfolding memoized_read
  scope_read unit_id s = memoized_read (lookup s.scope_indices unit_id) unit_id s

  memoized_index : Option ScopeIndex → Text → LinkState nx → ScopeIndex × LinkState nx
  unfolding index_scopes scopes_of
  memoized_index (some index) unit_id s = (index, s)
  memoized_index none unit_id s =
      let index = index_scopes s (scopes_of s unit_id) [] in
      (index, record s { scope_indices = insert s.scope_indices unit_id index })

  -- `_scope_index_for`
  pub scope_index_for : Text → LinkState nx → ScopeIndex × LinkState nx
  unfolding memoized_index
  scope_index_for unit_id s = memoized_index (lookup s.scope_indices unit_id) unit_id s

  -- By the signals of the name and by all that has it.
  among_matches : List Node → List Node → Text → Text → LinkState nx → Scored × LinkState nx
  among_matches (x ∷ xs) matches unit_id name s = (signal_targets (x ∷ xs), s)
  among_matches [] (m ∷ ms) unit_id name s = (([], 0), s)
  among_matches [] [] unit_id name s =
      let (stub, s') = stub_child nx lower str unit_id NodeKind.signal name s in
      ((stub ∷ [], confidence_ambiguous), s')

  -- `_scoped_signal_target`
  pub scoped_signal_target : Text → Text → LinkState nx → Scored × LinkState nx
  unfolding scope_index_for among_matches is_signal get_list
  scoped_signal_target unit_id name s =
      let (index, s') = scope_index_for unit_id s in
      let matches = get_list (lookup index name) in
      among_matches (filter is_signal matches) matches unit_id name s'
