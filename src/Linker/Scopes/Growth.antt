-- ===== src/Linker/Scopes/Growth.antt =====
-- The namespace of a unit in src/hdl_kgraph/graph/builder.py: reading it keeps the graph complete.
use hdl_kgraph.Base.{
  codes, ◌==◌, ◌&&◌, In-append, inl, inr, sym, subst, if_intro, leb, length, ◌∙◌, refl, Option,
  none, some, List, [], ◌∷◌, Text, lookup, nat_eq, list_eq, filter,
}
use hdl_kgraph.Schema.{node_kind_eq, get_attr, truthy, Node, NodeKind, AttrValue}
use hdl_kgraph.Graph.{MultiDiGraph, Laws}
use hdl_kgraph.Linker.Store.{LinkState, get_list, checked, obj_of}
use hdl_kgraph.Linker.Store.Growth.{Knows, Step, StepsTo, Sound, stays, then-Step, stub_child-Step}
use hdl_kgraph.Linker.Targets.{text_attr, named}
use hdl_kgraph.Linker.Targets.Known.{AllKnown, Among, named-AllKnown, checked-known}
use hdl_kgraph.Linker.Scopes.{
  ScopeIndex, memoized_index, scope_index_for, among_matches, scoped_signal_target, is_signal,
  library_read, unit_read, memoized_read, scope_read, modules_named, exact_or_folded,
}

module _ (nx : MultiDiGraph) (laws : Laws nx) (lower : Text → Text) (str : AttrValue → Text)
    (unit_id : Text) (s : LinkState nx) where
  memoized_index-Step :
      (o : Option ScopeIndex) → Step nx laws s (memoized_index nx lower str o unit_id s).1
  unfolding memoized_index
  memoized_index-Step none = record { after = λ h. (h, (λ n k. k), (refl, refl)) }
  memoized_index-Step (some index) = record { after = λ h. (h, (λ n k. k), (refl, refl)) }

  pub scope_index_for-Step : Step nx laws s (scope_index_for nx lower str unit_id s).1
  unfolding scope_index_for
  scope_index_for-Step = memoized_index-Step (lookup s.scope_indices unit_id)

module _ (nx : MultiDiGraph) (laws : Laws nx) (lower : Text → Text) (str : AttrValue → Text) where
  among_matches-Step :
      (signals matches : List Node) (unit_id name : Text) (s : LinkState nx)
      → Knows nx s unit_id
      → Step nx laws s (among_matches nx lower str signals matches unit_id name s).1
  unfolding among_matches
  among_matches-Step (x ∷ xs) matches unit_id name s k = stays nx laws s
  among_matches-Step [] (m ∷ ms) unit_id name s k = stays nx laws s
  among_matches-Step [] [] unit_id name s k =
      stub_child-Step nx laws lower str unit_id NodeKind.signal name s k

  pub scoped_signal_target-Step :
      (unit_id name : Text) (s : LinkState nx)
      → Knows nx s unit_id
      → Step nx laws s (scoped_signal_target nx lower str unit_id name s).1
  unfolding scoped_signal_target
  scoped_signal_target-Step unit_id name s k =
      let (index, s') = scope_index_for nx lower str unit_id s in
      let first = scope_index_for-Step nx laws lower str unit_id s in
      let matches = get_list (lookup index name) in
      record {
        after = λ h.
            (then-Step nx laws s s' _ first (
                among_matches-Step (filter is_signal matches) matches unit_id name s'
                  ((first.after h).1 unit_id k))).after
              h;
      }

  library_read-Among :
      (cs : List Text) (library : Option Text) → Among (library_read nx lower str cs library) cs
  unfolding library_read
  library_read-Among cs none id i = absurd i
  library_read-Among cs (some library) id i =
      if_intro (λ (xs : List Text). Among xs cs) (leb (length cs) 1) [] cs (λ c j. absurd j)
        (λ c j. j) id i

  -- What reading the namespace of a known unit looks up is known.
  module _ (unit_id : Text) (s : LinkState nx) (h : Sound nx laws s) (k : Knows nx s unit_id) where
    with_unit :
        (ids : List Text)
        → AllKnown nx laws lower str s ids
        → AllKnown nx laws lower str s (unit_id ∷ ids)
    with_unit ids a id (inl e) = subst (λ x. Knows nx s x) (sym e) k
    with_unit ids a id (inr i) = a id i

    unit_read-AllKnown : AllKnown nx laws lower str s (unit_read nx lower str unit_id s)
    unfolding unit_read
    unit_read-AllKnown =
        let unit = obj_of nx lower str s unit_id in
        let entity = get_attr unit.attrs (codes "of_entity") in
        let kinds = NodeKind.entity ∷ [] in
        let library = text_attr unit.attrs (codes "library") in
        let entities = named nx lower str s kinds (str entity) in
        if_intro (AllKnown nx laws lower str s)
          (unit.kind == NodeKind.architecture && truthy entity)
          (unit_id ∷ library_read nx lower str entities library) (unit_id ∷ [])
          (with_unit (library_read nx lower str entities library) (λ id i.
            named-AllKnown nx laws lower str s kinds (str entity) h.1 id
              (library_read-Among entities library id i)))
          (with_unit [] (λ id i. absurd i))

    memoized_read-AllKnown :
        (o : Option ScopeIndex)
        → AllKnown nx laws lower str s (memoized_read nx lower str o unit_id s)
    unfolding memoized_read
    memoized_read-AllKnown none = unit_read-AllKnown
    memoized_read-AllKnown (some index) = (λ id i. absurd i)

    pub scope_read-AllKnown : AllKnown nx laws lower str s (scope_read nx lower str unit_id s)
    unfolding scope_read
    scope_read-AllKnown = memoized_read-AllKnown (lookup s.scope_indices unit_id)

  folded-AllKnown :
      (cs : List Text) (name : Text) (s : LinkState nx)
      → Sound nx laws s
      → AllKnown nx laws lower str s cs
      → AllKnown nx laws lower str s (exact_or_folded nx lower str cs name s)
  unfolding exact_or_folded
  folded-AllKnown (c ∷ cs) name s h k id i = k id i
  folded-AllKnown [] name s (h, d) k id i = elim ((In-append id _ _).0 i) [
    | inl j ↦ (d (NodeKind.module_kind, lower name) id).1 j
    | inr j ↦ (d (NodeKind.entity, lower name) id).1 j
  ]

  pub modules_named-AllKnown :
      (name : Text) (s : LinkState nx)
      → Sound nx laws s
      → AllKnown nx laws lower str s (modules_named nx lower str name s)
  unfolding modules_named
  modules_named-AllKnown name s h =
      folded-AllKnown (named nx lower str s (NodeKind.module_kind ∷ NodeKind.entity ∷ []) name) name
        s h (named-AllKnown nx laws lower str s _ name h.1)

  -- What is looked up is all there, and the call goes on.
  pub checked-StepsTo :
      (s : LinkState nx) (ids : List Text) (o : Option (LinkState nx))
      → AllKnown nx laws lower str s ids
      → StepsTo nx laws s o
      → StepsTo nx laws s (checked nx lower str s ids o)
  checked-StepsTo s ids o k (t, e, p) = (t, checked-known nx laws lower str s ids o k ∙ e, p)
