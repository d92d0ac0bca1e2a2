-- ===== src/Linker/Bindings.antt =====
-- The configuration that binds a component: `_binding_for` of src/hdl_kgraph/graph/builder.py.
use hdl_kgraph.Base.{
  ℕ, not, ◌||◌, Option, none, some, List, [], ◌∷◌, ◌++◌, Text, codes, lookup, contains, nat_eq,
  list_eq, pair_eq, option_eq, ◌==◌, if◌then◌else◌,
}
use hdl_kgraph.Schema.{Node, NodeKind, node_kind_eq, AttrValue, Attrs}
use hdl_kgraph.Graph.{MultiDiGraph}
use hdl_kgraph.Linker.Store.{LinkState, Binding, get_list}

module _ (nx : MultiDiGraph) (lower : Text → Text) (str : AttrValue → Text) where
  -- How specific a binding is for an instance: by its label, for all, or for the others.
  pub rank_of : Node → AttrValue → Option ℕ
  rank_of inst (AttrValue.strs labels) = if contains labels inst.name then some 0 else none
  rank_of inst (AttrValue.str t) =
      if t == codes "all" then some 1 else if t == codes "others" then some 2 else none
  rank_of inst v = none

  -- `by_rank[rank]`: the first binding of the rank.
  pub first_of_rank : Node → ℕ → List Binding → Option Binding
  unfolding rank_of
  first_of_rank inst rank [] = none
  first_of_rank inst rank (row ∷ rows) =
      if rank_of inst row.instances == some rank then some row else first_of_rank inst rank rows

  -- `a`, or else `b`.
  pub first_some : Option Binding → Option Binding → Option Binding
  first_some none b = b
  first_some (some a) b = some a

  pub best_binding : Node → List Binding → Option Binding
  unfolding first_of_rank first_some
  best_binding inst rows =
      first_some (first_of_rank inst 0 rows)
        (first_some (first_of_rank inst 1 rows) (first_of_rank inst 2 rows))

  -- The rows for a component of an entity, in the architecture and in any.
  binding_rows : LinkState nx → Text → Text → Text → List Binding
  unfolding get_list
  binding_rows s entity arch component =
      get_list (lookup s.bindings ((entity, some arch), component))
      ++ get_list (lookup s.bindings ((entity, none), component))

  -- `str(attrs.get(key, ""))`
  pub str_or_empty : Attrs → Text → Text
  str_or_empty attrs key = elim (lookup attrs key) [ none ↦ [] | some v ↦ str v ]

  bound_in : Node → Node → LinkState nx → Option Binding
  unfolding best_binding binding_rows str_or_empty
  bound_in inst arch s =
      let entity = str_or_empty arch.attrs (codes "of_entity") in
      let component = str_or_empty inst.attrs (codes "target") in
      if not (arch.kind == NodeKind.architecture) || (entity == [] || component == [])
      then none
      else best_binding inst (binding_rows s entity arch.name component)

  -- `_binding_for`
  pub binding_for : Node → LinkState nx → Option Binding
  unfolding bound_in
  binding_for inst s = elim (lookup s.parent inst.id) [
    | none ↦ elim (lookup s.node_obj []) [ none ↦ none | some arch ↦ bound_in inst arch s ]
    | some p ↦ elim (lookup s.node_obj p) [ none ↦ none | some arch ↦ bound_in inst arch s ]
  ]
