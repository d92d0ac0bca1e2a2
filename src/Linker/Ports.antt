-- ===== src/Linker/Ports.antt =====
-- Port and parameter bindings: `_derive_port_dataflow` and `_resolve_binding` of
-- src/hdl_kgraph/graph/builder.py. `none` is the `KeyError` of a target that is not known.
pub mod Growth
use hdl_kgraph.Base.{
  and_then, ℕ, zero, suc, Bool, true, false, not, ◌||◌, ◌&&◌, Option, none, some, List, [], ◌∷◌,
  Text, codes, lookup, filter, nat_eq, list_eq, option_eq, ◌==◌, if◌then◌else◌, length, leb, ltb,
  sort_by,
}
use hdl_kgraph.Schema.{
  Node, NodeKind, node_kind_eq, EdgeKind, edge_kind_eq, Language, language_eq, AttrValue, Attrs,
  get_attr, truthy, confidence_ambiguous,
}
use hdl_kgraph.Ir.{UnresolvedRef}
use hdl_kgraph.Graph.{MultiDiGraph}
use hdl_kgraph.Linker.Lex.{lex_identifiers}
use hdl_kgraph.Linker.Climb.{enclosing_unit_id}
use hdl_kgraph.Linker.Store.{LinkState, get_list, checked, stub_child, emit, emit_edge}
use hdl_kgraph.Linker.Bindings.{str_or_empty}
use hdl_kgraph.Linker.Targets.{src_language}
use hdl_kgraph.Linker.Scopes.{scoped_signal_target, scope_read}

-- `_PORT_DIRECTION_FLOW`, `[]` for a text that is not a direction.
pub flows_of : Text → List EdgeKind
flows_of direction =
    if direction == codes "input" || direction == codes "in"
    then EdgeKind.reads ∷ []
    else if direction == codes "output" || (direction == codes "out" || direction == codes "buffer")
    then EdgeKind.drives ∷ []
    else if direction == codes "inout"
    then EdgeKind.reads ∷ EdgeKind.drives ∷ []
    else []

-- `min(a, b)`
pub lesser : ℕ → ℕ → ℕ
lesser a b = if leb a b then a else b

-- `n.attrs.get("index", 0)`
index_of : Node → ℕ
index_of x = elim (lookup x.attrs (codes "index")) [ some (AttrValue.num n) ↦ n | _ ↦ 0 ]

-- The children of a target that a reference can bind, in the order of their indices.
pub bindable : NodeKind → List Node → List Node
unfolding index_of
bindable child_kind children =
    let kids = filter (λ x. x.kind == child_kind) children in
    let parameters = filter (λ x. not (truthy (get_attr x.attrs (codes "is_localparam")))) kids in
    sort_by (λ a b. leb (index_of a) (index_of b))
      (if child_kind == NodeKind.parameter then parameters else kids)

first_id : (Node → Bool) → List Node → Option Text
first_id p [] = none
first_id p (x ∷ xs) = let rest = first_id p xs in if p x then some x.id else rest

id_at : ℕ → List Node → Option Text
id_at n [] = none
id_at zero (x ∷ xs) = some x.id
id_at (suc n) (x ∷ xs) = id_at n xs

first_of : Option Text → Option Text → Option Text
first_of none o = o
first_of (some id) o = some id

module _ (nx : MultiDiGraph) (lower : Text → Text) (str : AttrValue → Text) where
  -- `ref.attrs.get("port_name") or ref.attrs.get("param_name")`
  binding_name : UnresolvedRef → Option Text
  binding_name ref =
      let port_name = get_attr ref.attrs (codes "port_name") in
      elim (if truthy port_name then port_name else get_attr ref.attrs (codes "param_name")) [
        | AttrValue.null ↦ none
        | AttrValue.str t ↦ some t
        | v ↦ some (str v)
      ]

  -- The edges of one flow for each target of an identifier.
  flow_edges : UnresolvedRef → Node → Text → ℕ → Text → List EdgeKind → LinkState nx → LinkState nx
  flow_edges ref port actual_text confidence target [] s = s
  flow_edges ref port actual_text confidence target (kind ∷ kinds) s =
      flow_edges ref port actual_text confidence target kinds (
        emit_edge nx lower str
          (record {
            src = ref.src_id;
            dst = target;
            kind = kind;
            confidence = confidence;
            attrs =
                (codes "via_port", AttrValue.str port.name)
                ∷ (codes "derived", AttrValue.str (codes "connects"))
                ∷ (codes "expr_text", AttrValue.str actual_text)
                ∷ (codes "line_span", AttrValue.span ref.line_span)
                ∷ [];
          })
          s)

  flow_targets :
      UnresolvedRef → Node → Text → ℕ → List EdgeKind → List Text → LinkState nx → LinkState nx
  unfolding flow_edges
  flow_targets ref port actual_text confidence flows [] s = s
  flow_targets ref port actual_text confidence flows (t ∷ ts) s =
      flow_targets ref port actual_text confidence flows ts
        (flow_edges ref port actual_text confidence t flows s)

  -- `for name in identifiers`
  flow_names :
      UnresolvedRef
      → Node
      → Text
      → ℕ
      → List EdgeKind
      → Bool
      → Text
      → List Text
      → LinkState nx
      → LinkState nx
  unfolding flow_targets lesser
  flow_names ref port actual_text base flows vhdl unit_id [] s = s
  flow_names ref port actual_text base flows vhdl unit_id (name ∷ names) s =
      let ((targets, cap), s') =
        scoped_signal_target nx lower str unit_id (if vhdl then lower name else name) s in
      let confidence = lesser (lesser base cap) ref.confidence in
      flow_names ref port actual_text base flows vhdl unit_id names
        (flow_targets ref port actual_text confidence flows targets s')

  -- The confidence of a binding through several identifiers, or of an inout, is a guess.
  flow_base : ℕ → List Text → List EdgeKind → ℕ
  unfolding lesser
  flow_base confidence identifiers flows =
      let base =
        if length identifiers == 1 then confidence else lesser confidence confidence_ambiguous in
      if ltb 1 (length flows) then lesser base confidence_ambiguous else base

  flow_in :
      Option Text
      → UnresolvedRef
      → Node
      → Text
      → ℕ
      → List EdgeKind
      → List Text
      → LinkState nx
      → Option (LinkState nx)
  unfolding flow_names checked
  flow_in none ref port actual_text base flows names s = some s
  flow_in (some unit_id) ref port actual_text base flows names s =
      checked nx lower str s (scope_read nx lower str unit_id s) (
        some (
          flow_names ref port actual_text base flows
            (src_language nx lower str s ref == Language.vhdl) unit_id names s))

  -- `_derive_port_dataflow`. Only the first name reads the namespace; it is memoized for the others.
  pub derive_port_dataflow : UnresolvedRef → Node → ℕ → Text → LinkState nx → Option (LinkState nx)
  unfolding flow_in flow_base flows_of
  derive_port_dataflow ref port confidence actual_text s =
      let flows = flows_of (str_or_empty nx lower str port.attrs (codes "direction")) in
      let identifiers = lex_identifiers lower actual_text in
      if flows == [] || (actual_text == [] || actual_text == codes ".*")
      then some s
      else if identifiers == []
      then some s
      else flow_in (enclosing_unit_id nx s ref.src_id) ref port actual_text
          (flow_base confidence identifiers flows) flows identifiers s

  -- `.*` on a resolved target: every port, with the like-named signal of the parent's scope.
  bind_every : UnresolvedRef → ℕ → Attrs → List Node → LinkState nx → Option (LinkState nx)
  unfolding derive_port_dataflow
  bind_every ref confidence extra [] s = some s
  bind_every ref confidence extra (kid ∷ kids) s =
      let emitted = emit nx lower str ref kid.id confidence (some kid.name) extra s in
      and_then
        (if ref.edge_kind == EdgeKind.connects
          then derive_port_dataflow ref kid confidence kid.name emitted
          else some emitted)
        (λ s'. bind_every ref confidence extra kids s')

  -- The child that the name or else the position means, without those that are made up.
  declared_child : UnresolvedRef → Node → List Node → LinkState nx → Option Text
  unfolding binding_name first_id id_at first_of
  declared_child ref target_node kids s =
      let vhdl =
        src_language nx lower str s ref == Language.vhdl || target_node.language == Language.vhdl in
      elim (binding_name ref) [
        | some name ↦
            first_of (first_id (λ k. k.name == name) kids)
              (if vhdl then first_id (λ k. lower k.name == lower name) kids else none)
        | none ↦ elim (get_attr ref.attrs (codes "position")) [
          | AttrValue.num n ↦ id_at n kids
          | AttrValue.flag b ↦ id_at (if b then 1 else 0) kids
          | _ ↦ none
        ]
      ]

  -- A stub for a name that an unresolved target does not declare.
  made_child :
      Option Text → Option Text → Bool → Text → NodeKind → LinkState nx → Option Text × LinkState nx
  made_child (some dst) name unresolved target child_kind s = (some dst, s)
  made_child none (some name) true target child_kind s =
      let (stub, s') = stub_child nx lower str target child_kind name s in (some stub, s')
  made_child none (some name) false target child_kind s = (none, s)
  made_child none none unresolved target child_kind s = (none, s)

  flow_of_port : Option Node → UnresolvedRef → ℕ → LinkState nx → Option (LinkState nx)
  unfolding derive_port_dataflow
  flow_of_port none ref confidence s = some s
  flow_of_port (some port) ref confidence s =
      let value = get_attr ref.attrs (codes "expr_text") in
      if ref.edge_kind == EdgeKind.connects && port.kind == NodeKind.port
      then derive_port_dataflow ref port confidence (if truthy value then str value else []) s
      else some s

  -- The edge to the child, or to the target itself where there is none.
  bind_child : Option Text → UnresolvedRef → Text → ℕ → Attrs → LinkState nx → Option (LinkState nx)
  unfolding flow_of_port lesser
  bind_child none ref target confidence extra s =
      some (emit nx lower str ref target (lesser confidence confidence_ambiguous) none extra s)
  bind_child (some dst) ref target confidence extra s =
      let s' = emit nx lower str ref dst confidence none extra s in
      flow_of_port (lookup s'.node_obj dst) ref confidence s'

  bind_to :
      Option Node
      → UnresolvedRef
      → Text
      → ℕ
      → NodeKind
      → Attrs
      → LinkState nx
      → Option (LinkState nx)
  unfolding bind_every declared_child made_child bind_child bindable get_list
  bind_to none ref target confidence child_kind extra s = none
  bind_to (some target_node) ref target confidence child_kind extra s =
      let unresolved = truthy (get_attr target_node.attrs (codes "unresolved")) in
      let kids = bindable child_kind (get_list (lookup s.children target)) in
      let (dst, s') =
        made_child (declared_child ref target_node kids s) (binding_name ref) unresolved target
          child_kind s in
      let named = bind_child dst ref target confidence extra s' in
      let every = bind_every ref confidence extra kids s in
      let marker = emit nx lower str ref target confidence none extra s in
      if truthy (get_attr ref.attrs (codes "wildcard"))
      then (if ltb 0 (length kids) && not unresolved then every else some marker)
      else named

  -- `_resolve_binding`
  pub resolve_binding :
      UnresolvedRef → Text → ℕ → NodeKind → Attrs → LinkState nx → Option (LinkState nx)
  unfolding bind_to
  resolve_binding ref target confidence child_kind extra s =
      bind_to (lookup s.node_obj target) ref target confidence child_kind extra s
