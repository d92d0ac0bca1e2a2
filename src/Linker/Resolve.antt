-- ===== src/Linker/Resolve.antt =====
-- `_resolve_vhdl_instance`, `_stub` and `_resolve_target` of src/hdl_kgraph/graph/builder.py. A kind
-- that a table does not have, or a candidate that `node_obj` does not have, is `none`, the `KeyError` of
-- the lookup.
pub mod Total
pub mod Known
use hdl_kgraph.Base.{
  Bool, ◌||◌, ◌&&◌, Option, none, some, List, [], ◌∷◌, ◌++◌, Text, codes, lookup, filter,
  starts_with, nat_eq, list_eq, ◌==◌, if◌then◌else◌,
}
use hdl_kgraph.Schema.{
  Node, NodeKind, node_kind_eq, EdgeKind, edge_kind_eq, Language, language_eq, AttrValue, Attrs,
  get_attr, truthy, confidence_resolved,
}
use hdl_kgraph.Ir.{UnresolvedRef}
use hdl_kgraph.Graph.{MultiDiGraph}
use hdl_kgraph.Linker.Kinds.{sv_instantiable, vhdl_instantiable, ref_kinds, stub_kind}
use hdl_kgraph.Linker.Store.{LinkState, Binding, obj_of, checked, ensure_stub}
use hdl_kgraph.Linker.Bindings.{binding_for}
use hdl_kgraph.Linker.Targets.{
  Scored, or_else, text_attr, src_language, referrer_library, filter_foreign, filter_library, score,
  cross_language, named, resolve_entity_name, resolve_via_configuration, with_attrs,
}

-- The targets with the attributes that they add to the edge.
abbrev pub Targets : Type 0
Targets = Scored × Attrs

module _ (nx : MultiDiGraph) (lower : Text → Text) (str : AttrValue → Text) where
  -- A component by the configuration that binds it, or by its like-named entity.
  by_component :
      Option Binding → Option Text → UnresolvedRef → LinkState nx → Option (Targets × LinkState nx)
  by_component none library ref s =
      with_attrs nx lower str [] (resolve_entity_name nx lower str ref.target_name ref library s)
  by_component (some b) library ref s =
      let library_of : Option Text = elim b.library [ AttrValue.str t ↦ some t | _ ↦ none ] in
      with_attrs nx lower str ((codes "bound_by", AttrValue.str b.config) ∷ [])
        (resolve_entity_name nx lower str b.target ref library_of s)

  -- `_resolve_vhdl_instance`
  pub resolve_vhdl_instance : UnresolvedRef → Node → LinkState nx → Option (Targets × LinkState nx)
  unfolding by_component
  resolve_vhdl_instance ref inst s =
      let style : Text = elim (lookup inst.attrs (codes "style")) [
        | none ↦ codes "component"
        | some v ↦ str v
      ] in
      let library = text_attr inst.attrs (codes "library") in
      if style == codes "configuration"
      then resolve_via_configuration nx lower str ref library s
      else if style == codes "component"
      then by_component (binding_for nx lower str inst s) library ref s
      else with_attrs nx lower str []
          (resolve_entity_name nx lower str ref.target_name ref library s)

  stub_as : Option NodeKind → Text → Text → LinkState nx → Option (Text × LinkState nx)
  stub_as none qualified name s = none
  stub_as (some kind) qualified name s = some (ensure_stub nx lower str kind qualified name s)

  -- The name that a stub is shared under: that of a VHDL package has its library.
  qualified_target : UnresolvedRef → LinkState nx → Text
  qualified_target ref s =
      let library : Text =
        if truthy (get_attr ref.attrs (codes "library"))
        then str (get_attr ref.attrs (codes "library"))
        else referrer_library nx lower str s ref.src_id in
      if ref.edge_kind == EdgeKind.uses_package
      then library ++ b'.' ∷ ref.target_name
      else ref.target_name

  -- `_stub`
  pub stub : UnresolvedRef → LinkState nx → Option (Text × LinkState nx)
  unfolding stub_as qualified_target
  stub ref s = stub_as (stub_kind ref.edge_kind) (qualified_target ref s) ref.target_name s

  -- A class of the named package is preferred.
  in_package : UnresolvedRef → LinkState nx → List Text → List Text
  in_package ref s candidates =
      let prefix = str (get_attr ref.attrs (codes "package")) ++ b'.' ∷ [] in
      if ref.edge_kind == EdgeKind.extends && truthy (get_attr ref.attrs (codes "package"))
      then or_else
          (filter (λ c. starts_with (obj_of nx lower str s c).qualified_name prefix) candidates)
          candidates
      else candidates

  in_named_library : UnresolvedRef → LinkState nx → List Text → List Text
  in_named_library ref s candidates =
      if ref.edge_kind == EdgeKind.uses_package
        || (ref.edge_kind == EdgeKind.binds || ref.edge_kind == EdgeKind.implements)
      then filter_library nx lower str s candidates (text_attr ref.attrs (codes "library"))
          ref.src_id
      else candidates

  -- The definitions that the reference's name can mean in its own language.
  pub same_language : List NodeKind → UnresolvedRef → LinkState nx → List Text
  unfolding in_package in_named_library
  same_language kinds ref s =
      let narrowed =
        in_named_library ref s (in_package ref s (named nx lower str s kinds ref.target_name)) in
      if ref.edge_kind == EdgeKind.foreign_binds
      then filter_foreign nx lower str s ref narrowed
      else narrowed

  as_target : Option (Text × LinkState nx) → Option (Targets × LinkState nx)
  as_target none = none
  as_target (some (id, s)) = some (((id ∷ [], confidence_resolved), []), s)

  cross_or_stub : Option Scored → UnresolvedRef → LinkState nx → Option (Targets × LinkState nx)
  unfolding as_target stub
  cross_or_stub (some scored) ref s = some ((scored, []), s)
  cross_or_stub none ref s = as_target (stub ref s)

  or_cross :
      List Text → List NodeKind → UnresolvedRef → LinkState nx → Option (Targets × LinkState nx)
  unfolding cross_or_stub
  or_cross (c ∷ cs) cross_kinds ref s = some ((score nx lower str s (c ∷ cs) ref.src_id, []), s)
  or_cross [] cross_kinds ref s =
      cross_or_stub (cross_language nx lower str s cross_kinds ref.target_name) ref s

  -- Every definition of the name is looked up in `node_obj`, by a filter or by `_score`.
  among_kinds :
      List NodeKind → List NodeKind → UnresolvedRef → LinkState nx → Option (Targets × LinkState nx)
  unfolding or_cross same_language checked
  among_kinds same cross ref s =
      checked nx lower str s (named nx lower str s same ref.target_name)
        (or_cross (same_language same ref s) cross ref s)

  -- With the kinds of the table, from the referrer's point of view.
  pub by_kinds :
      List NodeKind
      → List NodeKind
      → Language
      → UnresolvedRef
      → LinkState nx
      → Option (Targets × LinkState nx)
  unfolding among_kinds
  by_kinds same [] language ref s = among_kinds same [] ref s
  by_kinds same (k ∷ cross) language ref s =
      if language == Language.vhdl
      then among_kinds vhdl_instantiable sv_instantiable ref s
      else among_kinds same (k ∷ cross) ref s

  -- A VHDL instance has its own rules.
  is_vhdl_instance : UnresolvedRef → Node → Bool
  is_vhdl_instance ref src =
      src.kind == NodeKind.instance_kind
      && (src.language == Language.vhdl
          && (ref.edge_kind == EdgeKind.instantiates
              || (ref.edge_kind == EdgeKind.connects || ref.edge_kind == EdgeKind.parameterizes)))

  by_entry :
      Option (List NodeKind × List NodeKind)
      → UnresolvedRef
      → LinkState nx
      → Option (Targets × LinkState nx)
  unfolding by_kinds
  by_entry none ref s = none
  by_entry (some (same, cross)) ref s = by_kinds same cross (src_language nx lower str s ref) ref s

  by_source : Option Node → UnresolvedRef → LinkState nx → Option (Targets × LinkState nx)
  unfolding resolve_vhdl_instance by_entry is_vhdl_instance
  by_source none ref s = by_entry (ref_kinds ref.edge_kind) ref s
  by_source (some src) ref s =
      if is_vhdl_instance ref src
      then resolve_vhdl_instance ref src s
      else by_entry (ref_kinds ref.edge_kind) ref s

  -- `_resolve_target`
  pub resolve_target : UnresolvedRef → LinkState nx → Option (Targets × LinkState nx)
  unfolding by_source
  resolve_target ref s = by_source (lookup s.node_obj ref.src_id) ref s
