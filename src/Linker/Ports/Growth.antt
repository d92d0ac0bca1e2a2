-- ===== src/Linker/Ports/Growth.antt =====
-- Port bindings and their dataflow in src/hdl_kgraph/graph/builder.py keep the graph complete, and a
-- binding of a known target raises no `KeyError`.
use hdl_kgraph.Base.{
  ◌≡◌, refl, inl, inr, Bool, true, false, ◌&&◌, not, Option, none, some, List, [], ◌∷◌, Text,
  lookup, nat_eq, list_eq, ◌==◌, if_intro, if◌then◌else◌, ℕ, codes, Option-cases, has_key-eq-lookup,
  arith, ltb, length,
}
use hdl_kgraph.Schema.{
  Node, NodeKind, node_kind_eq, EdgeKind, edge_kind_eq, AttrValue, Attrs, get_attr, truthy,
  Language, language_eq,
}
use hdl_kgraph.Ir.{UnresolvedRef}
use hdl_kgraph.Graph.{MultiDiGraph, Laws}
use hdl_kgraph.Linker.Climb.{enclosing_unit_id, enclosing_unit_id-known}
use hdl_kgraph.Linker.Store.{LinkState, emit, get_list}
use hdl_kgraph.Linker.Store.Growth.{
  Knows, Step, stays, then-Step, emit-Step, emit_edge-Step, stub_child-Step, StepsTo, Sound,
  Step-Sound, and_then-StepsTo,
}
use hdl_kgraph.Linker.Targets.{src_language}
use hdl_kgraph.Linker.Scopes.{scoped_signal_target}
use hdl_kgraph.Linker.Scopes.Growth.{
  scoped_signal_target-Step, scope_read-AllKnown, checked-StepsTo,
}
use hdl_kgraph.Linker.Ports.{
  lesser, bindable, binding_name, flow_edges, flow_targets, flow_names, flow_in,
  derive_port_dataflow, bind_every, declared_child, made_child, flow_of_port, bind_child, bind_to,
  resolve_binding,
}

module _ (nx : MultiDiGraph) (laws : Laws nx) (lower : Text → Text) (str : AttrValue → Text)
    (ref : UnresolvedRef) where
  module _ (port : Node) (actual_text : Text) where
    flow_edges-Step :
        (confidence : ℕ) (target : Text) (kinds : List EdgeKind) (s : LinkState nx)
        → Step nx laws s (flow_edges nx lower str ref port actual_text confidence target kinds s)
    unfolding flow_edges
    flow_edges-Step confidence target [] s = stays nx laws s
    flow_edges-Step confidence target (kind ∷ kinds) s =
        then-Step nx laws s _ _ (emit_edge-Step nx laws lower str _ s)
          (flow_edges-Step confidence target kinds _)

    flow_targets-Step :
        (confidence : ℕ) (flows : List EdgeKind) (ts : List Text) (s : LinkState nx)
        → Step nx laws s (flow_targets nx lower str ref port actual_text confidence flows ts s)
    unfolding flow_targets
    flow_targets-Step confidence flows [] s = stays nx laws s
    flow_targets-Step confidence flows (t ∷ ts) s =
        then-Step nx laws s _ _ (flow_edges-Step confidence t flows s)
          (flow_targets-Step confidence flows ts _)

    flow_names-Step :
        (base : ℕ) (flows : List EdgeKind) (vhdl : Bool) (unit_id : Text) (names : List Text)
        (s : LinkState nx)
        → Knows nx s unit_id
        → Step nx laws s
            (flow_names nx lower str ref port actual_text base flows vhdl unit_id names s)
    unfolding flow_names
    flow_names-Step base flows vhdl unit_id [] s k = stays nx laws s
    flow_names-Step base flows vhdl unit_id (name ∷ names) s k =
        let folded = if vhdl then lower name else name in
        let ((targets, cap), one) = scoped_signal_target nx lower str unit_id folded s in
        let confidence = lesser (lesser base cap) ref.confidence in
        let both =
          then-Step nx laws s one _ (scoped_signal_target-Step nx laws lower str unit_id folded s k)
            (flow_targets-Step confidence flows targets one) in
        record {
          after = λ h.
              (then-Step nx laws s _ _ both (
                  flow_names-Step base flows vhdl unit_id names _
                    ((both.after h).1 unit_id k))).after
                h;
        }

    flow_in-StepsTo :
        (o : Option Text) (base : ℕ) (flows : List EdgeKind) (names : List Text) (s : LinkState nx)
        → Sound nx laws s
        → ((u : Text) → o ≡ some u → Knows nx s u)
        → StepsTo nx laws s (flow_in nx lower str o ref port actual_text base flows names s)
    unfolding flow_in
    flow_in-StepsTo none base flows names s h k = (s, refl, stays nx laws s)
    flow_in-StepsTo (some u) base flows names s h k =
        checked-StepsTo nx laws lower str s _ _
          (scope_read-AllKnown nx laws lower str u s h (k u refl))
          (
            _,
            refl,
            flow_names-Step base flows (src_language nx lower str s ref == Language.vhdl) u names s
                (k u refl),
          )

    pub derive_port_dataflow-StepsTo :
        (confidence : ℕ) (s : LinkState nx)
        → Sound nx laws s
        → StepsTo nx laws s (derive_port_dataflow nx lower str ref port confidence actual_text s)
    unfolding derive_port_dataflow
    derive_port_dataflow-StepsTo confidence s h =
        let idle : StepsTo nx laws s (some s) = (s, refl, stays nx laws s) in
        if_intro (StepsTo nx laws s) _ _ _ idle (
          if_intro (StepsTo nx laws s) _ _ _ idle (
            flow_in-StepsTo (enclosing_unit_id nx s ref.src_id) _ _ _ s h
              (λ u e. enclosing_unit_id-known nx s ref.src_id u e)))

  bind_every-StepsTo :
      (confidence : ℕ) (extra : Attrs) (kids : List Node) (s : LinkState nx)
      → Sound nx laws s
      → StepsTo nx laws s (bind_every nx lower str ref confidence extra kids s)
  unfolding bind_every
  bind_every-StepsTo confidence extra [] s h = (s, refl, stays nx laws s)
  bind_every-StepsTo confidence extra (kid ∷ kids) s h =
      let one = emit nx lower str ref kid.id confidence (some kid.name) extra s in
      let first = emit-Step nx laws lower str ref kid.id confidence (some kid.name) extra s in
      let sound = Step-Sound nx laws s one h first in
      let (two, f, q) =
        and_then-StepsTo nx laws one _ _ sound
          (if_intro (StepsTo nx laws one) (ref.edge_kind == EdgeKind.connects) _ _
            (derive_port_dataflow-StepsTo kid kid.name confidence one sound)
            (one, refl, stays nx laws one))
          (λ t known _. bind_every-StepsTo confidence extra kids t known) in
      (two, f, then-Step nx laws s one two first q)

  made_child-Step :
      (o name : Option Text) (unresolved : Bool) (target : Text) (kind : NodeKind)
      (s : LinkState nx)
      → Knows nx s target
      → Step nx laws s (made_child nx lower str o name unresolved target kind s).1
  unfolding made_child
  made_child-Step (some dst) name unresolved target kind s k = stays nx laws s
  made_child-Step none (some name) true target kind s k =
      stub_child-Step nx laws lower str target kind name s k
  made_child-Step none (some name) false target kind s k = stays nx laws s
  made_child-Step none none unresolved target kind s k = stays nx laws s

  flow_of_port-StepsTo :
      (o : Option Node) (confidence : ℕ) (s : LinkState nx)
      → Sound nx laws s
      → StepsTo nx laws s (flow_of_port nx lower str o ref confidence s)
  unfolding flow_of_port
  flow_of_port-StepsTo none confidence s h = (s, refl, stays nx laws s)
  flow_of_port-StepsTo (some port) confidence s h =
      if_intro (StepsTo nx laws s) _ _ _ (derive_port_dataflow-StepsTo port _ confidence s h)
        (s, refl, stays nx laws s)

  bind_child-StepsTo :
      (o : Option Text) (target : Text) (confidence : ℕ) (extra : Attrs) (s : LinkState nx)
      → Sound nx laws s
      → StepsTo nx laws s (bind_child nx lower str o ref target confidence extra s)
  unfolding bind_child
  bind_child-StepsTo none target confidence extra s h =
      (_, refl, emit-Step nx laws lower str ref target _ none extra s)
  bind_child-StepsTo (some dst) target confidence extra s h =
      let one = emit nx lower str ref dst confidence none extra s in
      let first = emit-Step nx laws lower str ref dst confidence none extra s in
      let (two, f, q) =
        flow_of_port-StepsTo (lookup one.node_obj dst) confidence one
          (Step-Sound nx laws s one h first) in
      (two, f, then-Step nx laws s one two first q)

  bind_to-StepsTo :
      (x : Node) (target : Text) (confidence : ℕ) (kind : NodeKind) (extra : Attrs)
      (s : LinkState nx)
      → Sound nx laws s
      → Knows nx s target
      → StepsTo nx laws s (bind_to nx lower str (some x) ref target confidence kind extra s)
  unfolding bind_to
  bind_to-StepsTo x target confidence kind extra s h k =
      let kids = bindable kind (get_list (lookup s.children target)) in
      let unresolved = truthy (get_attr x.attrs (codes "unresolved")) in
      let made =
        made_child nx lower str (declared_child nx lower str ref x kids s)
          (binding_name nx lower str ref) unresolved target kind s in
      let first =
        made_child-Step (declared_child nx lower str ref x kids s) (binding_name nx lower str ref)
          unresolved target kind s k in
      let (two, f, q) =
        bind_child-StepsTo made.0 target confidence extra made.1
          (Step-Sound nx laws s made.1 h first) in
      if_intro (StepsTo nx laws s) (truthy (get_attr ref.attrs (codes "wildcard"))) _ _
        (if_intro (StepsTo nx laws s) (ltb 0 (length kids) && not unresolved) _ _
          (bind_every-StepsTo confidence extra kids s h)
          (_, refl, emit-Step nx laws lower str ref target confidence none extra s))
        (two, f, then-Step nx laws s made.1 two first q)

  pub resolve_binding-StepsTo :
      (target : Text) (confidence : ℕ) (kind : NodeKind) (extra : Attrs) (s : LinkState nx)
      → Sound nx laws s
      → Knows nx s target
      → StepsTo nx laws s (resolve_binding nx lower str ref target confidence kind extra s)
  unfolding resolve_binding
  resolve_binding-StepsTo target confidence kind extra s h k =
      elim (Option-cases (lookup s.node_obj target)) [
        | inl e ↦ absurd (ground (arith, has_key-eq-lookup s.node_obj target))
        | inr (x, e) ↦ rw e (bind_to-StepsTo x target confidence kind extra s h k)
      ]
