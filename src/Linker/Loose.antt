-- ===== src/Linker/Loose.antt =====
-- The references that are skipped where they match nothing: `_resolve_cocotb`, `_resolve_sln`,
-- `_resolve_constrains` and `_resolve_file_ref` of src/hdl_kgraph/graph/builder.py. `none` is a
-- `KeyError` of `node_obj`.
pub mod Growth
use hdl_kgraph.Base.{
  ℕ, Bool, not, ◌&&◌, Option, none, some, List, [], ◌∷◌, ◌++◌, map, Text, codes, lookup, has_key,
  contains, any, filter, flat_map, after_last, before_first, has_char, nat_eq, list_eq, pair_eq,
  option_eq, ◌==◌, if◌then◌else◌, insert,
}
use hdl_kgraph.Schema.{
  Node, NodeKind, node_kind_eq, EdgeKind, edge_kind_eq, AttrValue, Attrs, get_attr, truthy,
  confidence_resolved, confidence_unique_match, confidence_ambiguous,
}
use hdl_kgraph.Ids.{file_node_id}
use hdl_kgraph.Ir.{UnresolvedRef}
use hdl_kgraph.Graph.{MultiDiGraph}
use hdl_kgraph.Linker.Store.{
  LinkState, get_list, obj_of, checked, ensure_stub, emit, emit_edge, not_null,
}
use hdl_kgraph.Linker.Bindings.{str_or_empty}
use hdl_kgraph.Linker.Targets.{score, named}
use hdl_kgraph.Linker.Scopes.{
  modules_named, scope_read, scope_index_for, selected_or, is_signal, is_port,
}

-- `_CONSTRAINS_QUERY_KINDS` and `_CONSTRAINS_DEFAULT_KINDS`
pub query_kinds : Text → List NodeKind
query_kinds query =
    if query == codes "ports"
    then NodeKind.port ∷ []
    else if query == codes "clocks"
    then NodeKind.clock ∷ []
    else if query == codes "cells"
    then NodeKind.instance_kind ∷ []
    else if query == codes "pins"
    then NodeKind.port ∷ NodeKind.signal ∷ []
    else NodeKind.port ∷ NodeKind.signal ∷ NodeKind.clock ∷ NodeKind.instance_kind ∷ []

-- `_pin_leaf`
pub pin_leaf : Text → Text
pin_leaf pattern = before_first b'[' (after_last b'/' pattern)

-- `_is_glob`
pub is_glob : Text → Bool
is_glob pattern = any (λ ch. has_char ch pattern) (codes "*?[")

-- What the program takes from Python's `os.path`, `pathlib` and `fnmatch`.
pub record Host : Type 0 where
  -- `fnmatch.fnmatchcase(name, pattern)`
  pub fnmatchcase : Text → Text → Bool
  -- `os.path.isabs(target)`
  pub isabs : Text → Bool
  -- `path.resolve().relative_to(root.resolve()).as_posix()`, `none` for the `ValueError` of a path
  -- that is not under the root.
  pub relative_to : Text → Text → Option Text

-- `_canonical_file_target`, where `within_root` is that `relative_to` raises nothing.
pub canonical_file_target : Host → Option Text → Text → Text
canonical_file_target host none target = target
canonical_file_target host (some root) target =
    if host.isabs target
    then elim (host.relative_to target root) [ none ↦ target | some relpath ↦ relpath ]
    else target

-- The port of a net that is declared twice, or everything that is selected.
only_port : List Node → List Node → List Node
only_port selected (p ∷ []) = p ∷ []
only_port selected ports = selected

module _ (nx : MultiDiGraph) (lower : Text → Text) (str : AttrValue → Text) where
  -- `for target in targets: self._emit(ref, target, confidence, extra=extra)`
  pub emit_all : UnresolvedRef → List Text → ℕ → Attrs → LinkState nx → LinkState nx
  emit_all ref [] confidence extra s = s
  emit_all ref (t ∷ ts) confidence extra s =
      emit_all ref ts confidence extra (emit nx lower str ref t confidence none extra s)

  is_resolved : LinkState nx → Text → Bool
  is_resolved s id = not (truthy (get_attr (obj_of nx lower str s id).attrs (codes "unresolved")))

  -- The nets that a name of the design under test means.
  dut_signals : List Node → List Text
  unfolding only_port
  dut_signals matches =
      let signals = filter is_signal matches in
      let selected =
        selected_or (filter (λ x. not (truthy (get_attr x.attrs (codes "conditional")))) signals)
          signals in
      map (λ x. x.id) (only_port selected (filter is_port selected))

  covers_modules : UnresolvedRef → List Text → LinkState nx → Option (LinkState nx)
  unfolding is_resolved checked
  covers_modules ref [] s = some s
  covers_modules ref (id ∷ ids) s =
      let emitted = covers_modules ref ids (emit nx lower str ref id ref.confidence none [] s) in
      let skipped = covers_modules ref ids s in
      checked nx lower str s (id ∷ []) (if is_resolved s id then emitted else skipped)

  touches_signals : UnresolvedRef → List Text → LinkState nx → Option (LinkState nx)
  unfolding is_resolved dut_signals get_list emit_all checked
  touches_signals ref [] s = some s
  touches_signals ref (id ∷ ids) s =
      let (index, s') = scope_index_for nx lower str id s in
      let signals = dut_signals (get_list (lookup index ref.target_name)) in
      let emitted = touches_signals ref ids (emit_all ref signals ref.confidence [] s') in
      let skipped = touches_signals ref ids s in
      checked nx lower str s (id ∷ []) (
        if is_resolved s id
        then checked nx lower str s (scope_read nx lower str id s) emitted
        else skipped)

  -- `_resolve_cocotb`
  pub resolve_cocotb : UnresolvedRef → LinkState nx → Option (LinkState nx)
  unfolding covers_modules touches_signals
  resolve_cocotb ref s =
      let dut_name = str_or_empty nx lower str ref.attrs (codes "dut_module") in
      if ref.edge_kind == EdgeKind.test_covers
      then covers_modules ref (modules_named nx lower str ref.target_name s) s
      else touches_signals ref (modules_named nx lower str dut_name s) s

  -- The other actions of the file of the referrer.
  own_actions : UnresolvedRef → LinkState nx → List Text
  unfolding get_list
  own_actions ref s =
      filter
        (λ id. not (id == ref.src_id) && lookup s.node_file id == lookup s.node_file ref.src_id)
        (get_list (lookup s.definitions (NodeKind.action, ref.target_name)))

  emit_scored : UnresolvedRef → List Text → LinkState nx → LinkState nx
  unfolding emit_all
  emit_scored ref [] s = s
  emit_scored ref (t ∷ ts) s =
      let (scored, confidence) = score nx lower str s (t ∷ ts) ref.src_id in
      emit_all ref scored confidence [] s

  -- `_resolve_sln`
  pub resolve_sln : UnresolvedRef → LinkState nx → Option (LinkState nx)
  unfolding own_actions emit_scored emit_all is_resolved checked
  resolve_sln ref s =
      let candidates =
        modules_named nx lower str ref.target_name s
        ++ named nx lower str s (NodeKind.instance_kind ∷ []) ref.target_name in
      if ref.edge_kind == EdgeKind.invokes
      then some (emit_all ref (own_actions ref s) confidence_resolved [] s)
      else checked nx lower str s candidates
          (some (emit_scored ref (filter (is_resolved s) candidates) s))

  -- The confidence of a query with one match and of one with several.
  emit_matches : UnresolvedRef → ℕ → List Text → LinkState nx → LinkState nx
  unfolding emit_all
  emit_matches ref unique [] s = s
  emit_matches ref unique (t ∷ []) s = emit_all ref (t ∷ []) unique [] s
  emit_matches ref unique (t ∷ u ∷ ts) s = emit_all ref (t ∷ u ∷ ts) confidence_ambiguous [] s

  -- `_glob_targets`
  pub glob_targets : Host → List NodeKind → Text → LinkState nx → List Text
  unfolding contains
  glob_targets host kinds pattern s =
      flat_map
        (λ ((kind, name), ids).
          if contains kinds kind && host.fnmatchcase name pattern then ids else [])
        s.definitions

  -- `_resolve_constrains`
  pub resolve_constrains : Host → UnresolvedRef → LinkState nx → LinkState nx
  unfolding emit_matches glob_targets pin_leaf is_glob query_kinds
  resolve_constrains host ref s =
      let query = str_or_empty nx lower str ref.attrs (codes "query") in
      let kinds = query_kinds query in
      let name = if query == codes "pins" then pin_leaf ref.target_name else ref.target_name in
      if is_glob name
      then emit_matches ref confidence_unique_match (glob_targets host kinds name s) s
      else emit_matches ref confidence_resolved (named nx lower str s kinds name) s

  -- The node of a file of the build, or the stub of another.
  file_target : Text → LinkState nx → Text × LinkState nx
  file_target rel s =
      if has_key s.node_obj (file_node_id rel)
      then (file_node_id rel, s)
      else ensure_stub nx lower str NodeKind.file rel (after_last b'/' rel) s

  -- `_resolve_file_ref`
  pub resolve_file_ref : Host → Option Text → UnresolvedRef → LinkState nx → LinkState nx
  unfolding file_target canonical_file_target
  resolve_file_ref host root ref s =
      let (file_id, s') = file_target (canonical_file_target host root ref.target_name) s in
      if ref.edge_kind == EdgeKind.generated_from
      then emit_edge nx lower str
          (record {
            src = file_id;
            dst = ref.src_id;
            kind = ref.edge_kind;
            confidence = confidence_resolved;
            attrs =
                insert (filter not_null ref.attrs) (codes "line_span")
                  (AttrValue.span ref.line_span);
          })
          s'
      else emit nx lower str ref file_id confidence_resolved none [] s'
