-- ===== src/Linker/Resolve/Total.antt =====
-- `_resolve_target` of src/hdl_kgraph/graph/builder.py raises no `KeyError` on the kinds that
-- `_REF_TARGET_KINDS` has: the tables of kinds fit together, and every candidate is in `node_obj`.
use hdl_kgraph.Base.{
  In, has_key, if_intro, ◌≡◌, refl, ◌⊎◌, inl, inr, Option, none, some, List, Text, lookup, nat_eq,
  list_eq, if_intro, true,
}
use hdl_kgraph.Schema.{Node, NodeKind, EdgeKind, language_eq, AttrValue}
use hdl_kgraph.Ir.{UnresolvedRef}
use hdl_kgraph.Graph.{MultiDiGraph, Laws}
use hdl_kgraph.Linker.Store.Growth.{Sound, Step}
use hdl_kgraph.Linker.Targets.Known.{Chooses}
use hdl_kgraph.Linker.Resolve.Known.{by_kinds-Chooses, resolve_vhdl_instance-Chooses}
use hdl_kgraph.Linker.Kinds.{ref_kinds, stub_kind}
use hdl_kgraph.Linker.Store.{LinkState}
use hdl_kgraph.Linker.Targets.{src_language}
use hdl_kgraph.Linker.Resolve.{Targets, is_vhdl_instance, resolve_target, by_entry, by_source}

-- Every kind that has target kinds has a kind for its stubs.
stub_kind_total :
    (k : EdgeKind) → (ref_kinds k ≡ none) ⊎ ((kind : NodeKind) × (stub_kind k ≡ some kind))
unfolding ref_kinds stub_kind
stub_kind_total EdgeKind.instantiates = inr (NodeKind.module_kind, refl)
stub_kind_total EdgeKind.connects = inr (NodeKind.module_kind, refl)
stub_kind_total EdgeKind.parameterizes = inr (NodeKind.module_kind, refl)
stub_kind_total EdgeKind.imports = inr (NodeKind.package_kind, refl)
stub_kind_total EdgeKind.extends = inr (NodeKind.class, refl)
stub_kind_total EdgeKind.implements = inr (NodeKind.entity, refl)
stub_kind_total EdgeKind.uses_package = inr (NodeKind.vhdl_package, refl)
stub_kind_total EdgeKind.binds = inr (NodeKind.entity, refl)
stub_kind_total EdgeKind.foreign_binds = inr (NodeKind.function, refl)
stub_kind_total _ = inl refl

module _ (nx : MultiDiGraph) (laws : Laws nx) (lower : Text → Text) (str : AttrValue → Text)
    (ref : UnresolvedRef) (s : LinkState nx) (h : Sound nx laws s) where
  -- The call returns targets that are nodes of the graph that it returns.
  abbrev Returns : Option (Targets × LinkState nx) → Type 0
  Returns o = Chooses nx laws lower str s o

  by_entry-Returns :
      (o : Option (List NodeKind × List NodeKind))
      → (o ≡ none) ⊎ ((kind : NodeKind) × (stub_kind ref.edge_kind ≡ some kind))
      → (o ≡ none) ⊎ Returns (by_entry nx lower str o ref s)
  unfolding by_entry
  by_entry-Returns none k = inl refl
  by_entry-Returns (some (same, cross)) (inl e) = inl e
  by_entry-Returns (some (same, cross)) (inr (kind, e)) = inr (
      by_kinds-Chooses nx laws lower str ref s h kind e same cross
        (src_language nx lower str s ref))

  by_source-Returns :
      (o : Option Node)
      → (ref_kinds ref.edge_kind ≡ none) ⊎ Returns (by_source nx lower str o ref s)
  unfolding by_source
  by_source-Returns none =
      by_entry-Returns (ref_kinds ref.edge_kind) (stub_kind_total ref.edge_kind)
  by_source-Returns (some src) =
      if_intro
        (λ (r : Option (Targets × LinkState nx)). (ref_kinds ref.edge_kind ≡ none) ⊎ Returns r)
        (is_vhdl_instance nx lower str ref src) _ _
        (inr (resolve_vhdl_instance-Chooses nx laws lower str ref s h src))
        (by_entry-Returns (ref_kinds ref.edge_kind) (stub_kind_total ref.edge_kind))

  -- In a state whose graph and `node_obj` agree and whose definitions are all in `node_obj`: a
  -- reference's kind is not in the table of target kinds, or `_resolve_target` returns, no lookup in
  -- the tables or in `node_obj` failing. The state that it returns is again such a one, every node
  -- and definition is still there, and every target is a node of it.
  pub resolve_target-Returns :
      (ref_kinds ref.edge_kind ≡ none)
      ⊎ ((r : Targets × LinkState nx) × (resolve_target nx lower str ref s ≡ some r)
          × (Step nx laws s r.1 × ((id : Text) → In id r.0.0.0 → has_key r.1.node_obj id ≡ true)))
  unfolding resolve_target
  resolve_target-Returns = by_source-Returns (lookup s.node_obj ref.src_id)
