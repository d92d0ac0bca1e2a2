-- ===== src/Linker/Link.antt =====
-- `_resolve_scoped`, `_resolve` and `link` of src/hdl_kgraph/graph/builder.py. `none` is a
-- `KeyError`.
pub mod Returns
use hdl_kgraph.Base.{
  ℕ, Bool, false, ◌&&◌, Option, none, some, List, [], ◌∷◌, ◌++◌, Text, codes, lookup, filter,
  flat_map, not, nat_eq, list_eq, ◌==◌, if◌then◌else◌, ◌||◌, and_then,
}
use hdl_kgraph.Schema.{
  Node, NodeKind, node_kind_eq, EdgeKind, edge_kind_eq, AttrValue, Attrs, get_attr, truthy,
  confidence_resolved,
}
use hdl_kgraph.Ir.{UnresolvedRef, FileIr}
use hdl_kgraph.Graph.{MultiDiGraph}
use hdl_kgraph.Linker.Kinds.{is_scoped, RefRecord}
use hdl_kgraph.Linker.Climb.{enclosing_unit_id}
use hdl_kgraph.Linker.Store.{LinkState, get_list, checked, emit}
use hdl_kgraph.Linker.Targets.{record_binding}
use hdl_kgraph.Linker.Scopes.{scope_index_for, scope_read, scoped_signal_target}
use hdl_kgraph.Linker.Resolve.{Targets, resolve_target}
use hdl_kgraph.Linker.Loose.{
  Host, emit_all, resolve_cocotb, resolve_sln, resolve_constrains, resolve_file_ref,
}
use hdl_kgraph.Linker.Ports.{resolve_binding}

-- `n.kind in _ASSERTABLE_KINDS`
is_assertable : Node → Bool
is_assertable x = x.kind == NodeKind.property || x.kind == NodeKind.sequence

is_text : AttrValue → Text → Bool
is_text (AttrValue.str t) u = t == u
is_text v u = false

record_of : Text → UnresolvedRef → RefRecord
unfolding is_scoped
record_of path ref = record {
  file = path;
  src_id = ref.src_id;
  edge_kind = ref.edge_kind;
  target_name = ref.target_name;
  scoped = is_scoped ref.edge_kind;
}

-- The references that wait for the bindings.
pub deferred_refs : List FileIr → List UnresolvedRef
deferred_refs irs =
    filter (λ ref. not (ref.edge_kind == EdgeKind.binds)) (flat_map (λ ir. ir.unresolved_refs) irs)

module _ (nx : MultiDiGraph) (lower : Text → Text) (str : AttrValue → Text) where
  to_signals : UnresolvedRef → Text → LinkState nx → LinkState nx
  to_signals ref unit_id s =
      let ((targets, confidence), s') =
        scoped_signal_target nx lower str unit_id ref.target_name s in
      emit_all nx lower str ref targets confidence [] s'

  to_assertable : List Node → UnresolvedRef → Text → LinkState nx → LinkState nx
  unfolding to_signals
  to_assertable (x ∷ xs) ref unit_id s = emit nx lower str ref x.id confidence_resolved none [] s
  to_assertable [] ref unit_id s = to_signals ref unit_id s

  scoped_in : Option Text → UnresolvedRef → LinkState nx → Option (LinkState nx)
  unfolding to_assertable to_signals is_assertable get_list checked
  scoped_in none ref s = some s
  scoped_in (some unit_id) ref s =
      let (index, s') = scope_index_for nx lower str unit_id s in
      let asserted =
        to_assertable (filter is_assertable (get_list (lookup index ref.target_name))) ref unit_id
          s' in
      let plain = to_signals ref unit_id s in
      checked nx lower str s (scope_read nx lower str unit_id s)
        (some (if ref.edge_kind == EdgeKind.asserts_on then asserted else plain))

  -- `_resolve_scoped`
  pub resolve_scoped : UnresolvedRef → LinkState nx → Option (LinkState nx)
  unfolding scoped_in
  resolve_scoped ref s = scoped_in (enclosing_unit_id nx s ref.src_id) ref s

  bind_all : UnresolvedRef → List Text → ℕ → NodeKind → Attrs → LinkState nx → Option (LinkState nx)
  bind_all ref [] confidence child_kind extra s = some s
  bind_all ref (t ∷ ts) confidence child_kind extra s =
      and_then (resolve_binding nx lower str ref t confidence child_kind extra s)
        (λ s'. bind_all ref ts confidence child_kind extra s')

  to_targets : Option (Targets × LinkState nx) → UnresolvedRef → Option (LinkState nx)
  unfolding bind_all
  to_targets none ref = none
  to_targets (some (((targets, confidence), extra), s)) ref =
      if ref.edge_kind == EdgeKind.connects
      then bind_all ref targets confidence NodeKind.port extra s
      else if ref.edge_kind == EdgeKind.parameterizes
      then bind_all ref targets confidence NodeKind.parameter extra s
      else some (emit_all nx lower str ref targets confidence extra s)

  -- A binding of a configuration is recorded before its own edge is resolved.
  with_binding : UnresolvedRef → LinkState nx → LinkState nx
  unfolding is_text
  with_binding ref s =
      if ref.edge_kind == EdgeKind.binds
        && is_text (get_attr ref.attrs (codes "role")) (codes "binding")
      then record_binding nx lower str ref s
      else s

  -- The references to other design units.
  pub resolve_global : UnresolvedRef → LinkState nx → Option (LinkState nx)
  unfolding to_targets with_binding
  resolve_global ref s = to_targets (resolve_target nx lower str ref (with_binding ref s)) ref

  module _ (host : Host) (root : Option Text) where
    -- `_resolve`
    pub resolve : UnresolvedRef → LinkState nx → Option (LinkState nx)
    unfolding resolve_scoped resolve_global
    resolve ref s =
        if truthy (get_attr ref.attrs (codes "cocotb"))
        then resolve_cocotb nx lower str ref s
        else if truthy (get_attr ref.attrs (codes "sln"))
        then resolve_sln nx lower str ref s
        else if ref.edge_kind == EdgeKind.constrains
        then some (resolve_constrains nx lower str host ref s)
        else if truthy (get_attr ref.attrs (codes "file_ref"))
        then some (resolve_file_ref nx lower str host root ref s)
        else if is_scoped ref.edge_kind
        then resolve_scoped ref s
        else resolve_global ref s

    resolve_all : List UnresolvedRef → LinkState nx → Option (LinkState nx)
    unfolding resolve
    resolve_all [] s = some s
    resolve_all (ref ∷ refs) s = and_then (resolve ref s) (λ s'. resolve_all refs s')

    -- The first loop over a file's references: each is put on record, the bindings are resolved.
    record_refs : Text → List UnresolvedRef → LinkState nx → Option (LinkState nx)
    unfolding resolve record_of
    record_refs path [] s = some s
    record_refs path (ref ∷ refs) s =
        let noted = record s { ref_records = s.ref_records ++ record_of path ref ∷ [] } in
        and_then (if ref.edge_kind == EdgeKind.binds then resolve ref noted else some noted)
          (λ s'. record_refs path refs s')

    record_files : List FileIr → LinkState nx → Option (LinkState nx)
    unfolding record_refs
    record_files [] s = some s
    record_files (ir ∷ irs) s =
        and_then (record_refs ir.path ir.unresolved_refs s) (λ s'. record_files irs s')

    -- `link`
    pub link : List FileIr → LinkState nx → Option (LinkState nx)
    unfolding record_files resolve_all deferred_refs
    link file_irs s =
        and_then (record_files file_irs s) (λ s'. resolve_all (deferred_refs file_irs) s')
