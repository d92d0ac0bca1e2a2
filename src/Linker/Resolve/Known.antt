-- ===== src/Linker/Resolve/Known.antt =====
-- The targets that `_resolve_target` of src/hdl_kgraph/graph/builder.py returns are nodes of the
-- graph.
use hdl_kgraph.Base.{
  ◌≡◌, refl, subst, sym, Option, none, some, List, [], ◌∷◌, Text, nat_eq, list_eq, ◌==◌, if_intro,
  codes, ◌||◌, ◌&&◌,
}
use hdl_kgraph.Schema.{
  Node, NodeKind, EdgeKind, Language, language_eq, AttrValue, edge_kind_eq, get_attr, truthy,
}
use hdl_kgraph.Ir.{UnresolvedRef}
use hdl_kgraph.Graph.{MultiDiGraph, Laws}
use hdl_kgraph.Linker.Kinds.{stub_kind, sv_instantiable, vhdl_instantiable}
use hdl_kgraph.Linker.Store.{LinkState, Binding}
use hdl_kgraph.Linker.Store.Growth.{Sound}
use hdl_kgraph.Linker.Bindings.{binding_for}
use hdl_kgraph.Linker.Targets.{Scored, named, score, cross_language}
use hdl_kgraph.Linker.Targets.Known.{
  Among, filter-Among, or_else-Among, filter_library-Among, filter_foreign-Among, score-Among,
  AllKnown, named-AllKnown, cross_language-AllKnown, Chooses, unchanged, made_stub,
  resolve_entity_name-Choice, resolve_via_configuration-Chooses, with_attrs-Chooses,
  checked-Chooses,
}
use hdl_kgraph.Linker.Resolve.{
  among_kinds, by_component, resolve_vhdl_instance, stub_as, qualified_target, stub, in_package,
  in_named_library, same_language, as_target, cross_or_stub, or_cross, by_kinds,
}

module _ (nx : MultiDiGraph) (laws : Laws nx) (lower : Text → Text) (str : AttrValue → Text)
    (ref : UnresolvedRef) (s : LinkState nx) where
  in_package-Among : (cs : List Text) → Among (in_package nx lower str ref s cs) cs
  unfolding in_package
  in_package-Among cs =
      if_intro (λ (xs : List Text). Among xs cs)
        (ref.edge_kind == EdgeKind.extends && truthy (get_attr ref.attrs (codes "package"))) _ _
        (or_else-Among _ cs cs (filter-Among _ cs) (λ c i. i)) (λ c i. i)

  in_named_library-Among : (cs : List Text) → Among (in_named_library nx lower str ref s cs) cs
  unfolding in_named_library
  in_named_library-Among cs =
      if_intro (λ (xs : List Text). Among xs cs)
        (ref.edge_kind == EdgeKind.uses_package
          || (ref.edge_kind == EdgeKind.binds || ref.edge_kind == EdgeKind.implements))
        _ _ (filter_library-Among nx lower str s cs _ ref.src_id) (λ c i. i)

  module _ (h : Sound nx laws s) where
    same_language-AllKnown :
        (kinds : List NodeKind)
        → AllKnown nx laws lower str s (same_language nx lower str kinds ref s)
    unfolding same_language
    same_language-AllKnown kinds =
        let cs = named nx lower str s kinds ref.target_name in
        let packaged = in_package nx lower str ref s cs in
        let narrowed = in_named_library nx lower str ref s packaged in
        let known : AllKnown nx laws lower str s narrowed = (λ id i.
          named-AllKnown nx laws lower str s kinds ref.target_name h.1 id
            (in_package-Among cs id (in_named_library-Among packaged id i))) in
        if_intro (AllKnown nx laws lower str s) (ref.edge_kind == EdgeKind.foreign_binds) _ _
          (λ id i. known id (filter_foreign-Among nx lower str s ref narrowed id i)) known

    stub-Chooses :
        (kind : NodeKind) (qualified name : Text)
        → Chooses nx laws lower str s
            (as_target nx lower str (stub_as nx lower str (some kind) qualified name s))
    unfolding as_target stub_as
    stub-Chooses kind qualified name =
        (_, refl, made_stub nx laws lower str kind qualified name s h.0)

    by_component-Chooses :
        (o : Option Binding) (library : Option Text)
        → Chooses nx laws lower str s (by_component nx lower str o library ref s)
    unfolding by_component
    by_component-Chooses none library =
        with_attrs-Chooses nx laws lower str s [] _
          (resolve_entity_name-Choice nx laws lower str ref.target_name ref library s h)
    by_component-Chooses (some b) library =
        with_attrs-Chooses nx laws lower str s _ _
          (resolve_entity_name-Choice nx laws lower str b.target ref _ s h)

    pub resolve_vhdl_instance-Chooses :
        (inst : Node) → Chooses nx laws lower str s (resolve_vhdl_instance nx lower str ref inst s)
    unfolding resolve_vhdl_instance
    resolve_vhdl_instance-Chooses inst =
        if_intro (Chooses nx laws lower str s) _ _ _
          (resolve_via_configuration-Chooses nx laws lower str ref _ s h)
          (if_intro (Chooses nx laws lower str s) _ _ _
            (by_component-Chooses (binding_for nx lower str inst s) _)
            (with_attrs-Chooses nx laws lower str s [] _
              (resolve_entity_name-Choice nx laws lower str ref.target_name ref _ s h)))

    module _ (kind : NodeKind) (has_kind : stub_kind ref.edge_kind ≡ some kind) where
      cross_or_stub-Chooses :
          (o : Option Scored)
          → ((r : Scored) → o ≡ some r → AllKnown nx laws lower str s r.0)
          → Chooses nx laws lower str s (cross_or_stub nx lower str o ref s)
      unfolding cross_or_stub stub
      cross_or_stub-Chooses none k =
          subst
            (λ (o : Option NodeKind). Chooses nx laws lower str s (
              as_target nx lower str
                (stub_as nx lower str o (qualified_target nx lower str ref s) ref.target_name s)))
            (sym has_kind) (stub-Chooses kind (qualified_target nx lower str ref s) ref.target_name)
      cross_or_stub-Chooses (some r) k = (_, refl, unchanged nx laws lower str s r.0 (k r refl))

      or_cross-Chooses :
          (cs : List Text) (cross : List NodeKind)
          → AllKnown nx laws lower str s cs
          → Chooses nx laws lower str s (or_cross nx lower str cs cross ref s)
      unfolding or_cross
      or_cross-Chooses [] cross k =
          cross_or_stub-Chooses (cross_language nx lower str s cross ref.target_name)
            (λ r e. cross_language-AllKnown nx laws lower str s cross ref.target_name r h.1 e)
      or_cross-Chooses (c ∷ cs) cross k = (
        _,
        refl,
        unchanged nx laws lower str s (score nx lower str s (c ∷ cs) ref.src_id).0
            (λ id i. k id (score-Among nx lower str s (c ∷ cs) ref.src_id id i)),
      )

      among_kinds-Chooses :
          (same cross : List NodeKind)
          → Chooses nx laws lower str s (among_kinds nx lower str same cross ref s)
      unfolding among_kinds
      among_kinds-Chooses same cross =
          checked-Chooses nx laws lower str s _ _
            (named-AllKnown nx laws lower str s same ref.target_name h.1)
            (or_cross-Chooses _ cross (same_language-AllKnown same))

      pub by_kinds-Chooses :
          (same cross : List NodeKind) (language : Language)
          → Chooses nx laws lower str s (by_kinds nx lower str same cross language ref s)
      unfolding by_kinds
      by_kinds-Chooses same [] language = among_kinds-Chooses same []
      by_kinds-Chooses same (k ∷ cross) language =
          if_intro (Chooses nx laws lower str s) (language == Language.vhdl) _ _
            (among_kinds-Chooses vhdl_instantiable sv_instantiable)
            (among_kinds-Chooses same (k ∷ cross))
