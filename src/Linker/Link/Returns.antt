-- ===== src/Linker/Link/Returns.antt =====
-- A whole link of src/hdl_kgraph/graph/builder.py raises no `KeyError` and leaves a complete graph.
use hdl_kgraph.Base.{
  ◌≡◌, refl, inl, inr, Bool, true, false, ◌||◌, Option, none, some, List, [], ◌∷◌, ◌++◌, Text, In,
  In-append, In-filter, lookup, has_key, nat_eq, list_eq, ◌==◌, if_intro, if_cases, ℕ, codes, arith,
  All, of-All, filter, flat_map,
}
use hdl_kgraph.Schema.{
  Node, NodeKind, EdgeKind, edge_kind_eq, AttrValue, Attrs, get_attr, truthy, confidence_resolved,
}
use hdl_kgraph.Ir.{UnresolvedRef, FileIr}
use hdl_kgraph.Graph.{MultiDiGraph, Laws}
use hdl_kgraph.Linker.Kinds.{is_scoped, ref_kinds}
use hdl_kgraph.Linker.Climb.{enclosing_unit_id, enclosing_unit_id-known}
use hdl_kgraph.Linker.Store.{LinkState, init_linker, get_list}
use hdl_kgraph.Linker.Store.Growth.{
  Knows, Step, StepsTo, stays, then-Step, Sound, Step-Sound, emit-Step, and_then-StepsTo,
}
use hdl_kgraph.Linker.Store.Indexed.{init_linker-Sound}
use hdl_kgraph.Linker.Targets.Known.{AllKnown, ChosenWith, record_binding-Step}
use hdl_kgraph.Linker.Scopes.{scoped_signal_target, scope_index_for}
use hdl_kgraph.Linker.Scopes.Growth.{
  scoped_signal_target-Step, scope_index_for-Step, scope_read-AllKnown, checked-StepsTo,
}
use hdl_kgraph.Linker.Resolve.{Targets}
use hdl_kgraph.Linker.Resolve.Total.{resolve_target-Returns}
use hdl_kgraph.Linker.Loose.{Host}
use hdl_kgraph.Linker.Loose.Growth.{
  emit_all-Step, resolve_cocotb-StepsTo, resolve_sln-StepsTo, resolve_constrains-Step,
  resolve_file_ref-Step,
}
use hdl_kgraph.Linker.Ports.Growth.{resolve_binding-StepsTo}
use hdl_kgraph.Linker.Link.{
  to_signals, to_assertable, scoped_in, resolve_scoped, bind_all, to_targets, with_binding,
  resolve_global, resolve, resolve_all, record_refs, record_files, link, deferred_refs,
  is_assertable, record_of,
}

unfoldable pub has_entry : Option (List NodeKind × List NodeKind) → Bool
has_entry none = false
has_entry (some entry) = true

-- The reference has a handler of its own, or its kind is in `_REF_TARGET_KINDS`.
unfoldable pub is_linkable : UnresolvedRef → Bool
unfolding has_entry ref_kinds is_scoped
is_linkable ref =
    truthy (get_attr ref.attrs (codes "cocotb"))
    || (truthy (get_attr ref.attrs (codes "sln"))
        || (ref.edge_kind == EdgeKind.constrains
            || (truthy (get_attr ref.attrs (codes "file_ref"))
                || (is_scoped ref.edge_kind || has_entry (ref_kinds ref.edge_kind)))))

-- Every reference of the files.
abbrev pub all_refs : List FileIr → List UnresolvedRef
all_refs irs = flat_map (λ ir. ir.unresolved_refs) irs

module _ (nx : MultiDiGraph) (laws : Laws nx) (lower : Text → Text) (str : AttrValue → Text) where
  module _ (ref : UnresolvedRef) where
    to_signals-Step :
        (unit_id : Text) (s : LinkState nx)
        → Knows nx s unit_id
        → Step nx laws s (to_signals nx lower str ref unit_id s)
    unfolding to_signals
    to_signals-Step unit_id s k =
        let ((targets, confidence), one) =
          scoped_signal_target nx lower str unit_id ref.target_name s in
        then-Step nx laws s one _
          (scoped_signal_target-Step nx laws lower str unit_id ref.target_name s k)
          (emit_all-Step nx laws lower str ref targets confidence [] one)

    to_assertable-Step :
        (xs : List Node) (unit_id : Text) (s : LinkState nx)
        → Knows nx s unit_id
        → Step nx laws s (to_assertable nx lower str xs ref unit_id s)
    unfolding to_assertable
    to_assertable-Step [] unit_id s k = to_signals-Step unit_id s k
    to_assertable-Step (x ∷ xs) unit_id s k =
        emit-Step nx laws lower str ref x.id confidence_resolved none [] s

    scoped_in-StepsTo :
        (o : Option Text) (s : LinkState nx)
        → Sound nx laws s
        → ((u : Text) → o ≡ some u → Knows nx s u)
        → StepsTo nx laws s (scoped_in nx lower str o ref s)
    unfolding scoped_in
    scoped_in-StepsTo none s h k = (s, refl, stays nx laws s)
    scoped_in-StepsTo (some u) s sound k =
        let (index, one) = scope_index_for nx lower str u s in
        let first = scope_index_for-Step nx laws lower str u s in
        let asserted = filter is_assertable (get_list (lookup index ref.target_name)) in
        checked-StepsTo nx laws lower str s _ _
          (scope_read-AllKnown nx laws lower str u s sound (k u refl))
          (
            _,
            refl,
            if_intro (Step nx laws s) (ref.edge_kind == EdgeKind.asserts_on) _ _
                (record {
                  after = λ h.
                      (then-Step nx laws s one _ first (
                          to_assertable-Step asserted u one ((first.after h).1 u (k u refl)))).after
                        h;
                })
                (to_signals-Step u s (k u refl)),
          )

    resolve_scoped-StepsTo :
        (s : LinkState nx) → Sound nx laws s → StepsTo nx laws s (resolve_scoped nx lower str ref s)
    unfolding resolve_scoped
    resolve_scoped-StepsTo s h =
        scoped_in-StepsTo (enclosing_unit_id nx s ref.src_id) s h
          (λ u e. enclosing_unit_id-known nx s ref.src_id u e)

    bind_all-StepsTo :
        (ts : List Text) (confidence : ℕ) (kind : NodeKind) (extra : Attrs) (s : LinkState nx)
        → Sound nx laws s
        → AllKnown nx laws lower str s ts
        → StepsTo nx laws s (bind_all nx lower str ref ts confidence kind extra s)
    unfolding bind_all
    bind_all-StepsTo [] confidence kind extra s h k = (s, refl, stays nx laws s)
    bind_all-StepsTo (t ∷ ts) confidence kind extra s h k =
        and_then-StepsTo nx laws s _ _ h
          (resolve_binding-StepsTo nx laws lower str ref t confidence kind extra s h
            (k t (inl refl)))
          (λ one sound p.
            bind_all-StepsTo ts confidence kind extra one sound
              (λ id i. (p.after h.0).1 id (k id (inr i))))

    to_targets-StepsTo :
        (r : Targets × LinkState nx) (s : LinkState nx)
        → Sound nx laws s
        → ChosenWith nx laws lower str s r
        → StepsTo nx laws s (to_targets nx lower str (some r) ref)
    unfolding to_targets
    to_targets-StepsTo (((targets, confidence), extra), one) s h (p, k) =
        let bound : (kind : NodeKind)
            → StepsTo nx laws s (bind_all nx lower str ref targets confidence kind extra one) =
          (λ kind.
            let (two, e, q) =
              bind_all-StepsTo targets confidence kind extra one (Step-Sound nx laws s one h p) k in
            (two, e, then-Step nx laws s one two p q)) in
        if_intro (StepsTo nx laws s) (ref.edge_kind == EdgeKind.connects) _ _ (bound NodeKind.port)
          (if_intro (StepsTo nx laws s) (ref.edge_kind == EdgeKind.parameterizes) _ _
            (bound NodeKind.parameter)
            (
              _,
              refl,
              then-Step nx laws s one _ p
                  (emit_all-Step nx laws lower str ref targets confidence extra one),
            ))

    with_binding-Step : (s : LinkState nx) → Step nx laws s (with_binding nx lower str ref s)
    unfolding with_binding
    with_binding-Step s =
        if_intro (Step nx laws s) _ _ _ (record_binding-Step nx laws lower str ref s)
          (stays nx laws s)

    resolve_global-StepsTo :
        (s : LinkState nx)
        → Sound nx laws s
        → has_entry (ref_kinds ref.edge_kind) ≡ true
        → StepsTo nx laws s (resolve_global nx lower str ref s)
    unfolding resolve_global has_entry
    resolve_global-StepsTo s h k =
        let one = with_binding nx lower str ref s in
        let sound = Step-Sound nx laws s one h (with_binding-Step s) in
        elim (resolve_target-Returns nx laws lower str ref one sound) [
          | inl e ↦ absurd (ground arith)
          | inr (r, e, (p, known)) ↦
              let (two, f, q) = to_targets-StepsTo r one sound (p, known) in
              (two, rw e f, then-Step nx laws s one two (with_binding-Step s) q)
        ]

  module _ (host : Host) (root : Option Text) where
    done : (s t : LinkState nx) → Step nx laws s t → StepsTo nx laws s (some t)
    done s t p = (t, refl, p)

    resolve-StepsTo :
        (ref : UnresolvedRef) (s : LinkState nx)
        → Sound nx laws s
        → is_linkable ref ≡ true
        → StepsTo nx laws s (resolve nx lower str host root ref s)
    unfolding resolve is_linkable
    resolve-StepsTo ref s h k =
        let test = λ (key : Text). truthy (get_attr ref.attrs key) in
        if_cases (StepsTo nx laws s) (test (codes "cocotb")) _ _
          (λ _. resolve_cocotb-StepsTo nx laws lower str ref s h)
          (λ a.
            if_cases (StepsTo nx laws s) (test (codes "sln")) _ _
              (λ _. resolve_sln-StepsTo nx laws lower str ref s h)
              (λ b.
                if_cases (StepsTo nx laws s) (ref.edge_kind == EdgeKind.constrains) _ _
                  (λ _. done s _ (resolve_constrains-Step nx laws lower str ref host s))
                  (λ c.
                    if_cases (StepsTo nx laws s) (test (codes "file_ref")) _ _
                      (λ _. done s _ (resolve_file_ref-Step nx laws lower str ref host root s))
                      (λ d.
                        if_cases (StepsTo nx laws s) (is_scoped ref.edge_kind) _ _
                          (λ _. resolve_scoped-StepsTo ref s h)
                          (λ e. resolve_global-StepsTo ref s h (ground arith))))))

    resolve_all-StepsTo :
        (refs : List UnresolvedRef) (s : LinkState nx)
        → Sound nx laws s
        → ((ref : UnresolvedRef) → In ref refs → is_linkable ref ≡ true)
        → StepsTo nx laws s (resolve_all nx lower str host root refs s)
    unfolding resolve_all
    resolve_all-StepsTo [] s h k = done s s (stays nx laws s)
    resolve_all-StepsTo (ref ∷ refs) s h k =
        and_then-StepsTo nx laws s _ _ h (resolve-StepsTo ref s h (k ref (inl refl)))
          (λ one sound _. resolve_all-StepsTo refs one sound (λ r i. k r (inr i)))

    record_refs-StepsTo :
        (path : Text) (refs : List UnresolvedRef) (s : LinkState nx)
        → Sound nx laws s
        → ((ref : UnresolvedRef) → In ref refs → is_linkable ref ≡ true)
        → StepsTo nx laws s (record_refs nx lower str host root path refs s)
    unfolding record_refs
    record_refs-StepsTo path [] s h k = done s s (stays nx laws s)
    record_refs-StepsTo path (ref ∷ refs) s h k =
        let noted = record s { ref_records = s.ref_records ++ record_of path ref ∷ [] } in
        let note : Step nx laws s noted = record { after = λ g. (g, (λ n i. i), (refl, refl)) } in
        let sound = Step-Sound nx laws s noted h note in
        let (two, f, q) =
          and_then-StepsTo nx laws noted _ _ sound
            (if_intro (StepsTo nx laws noted) (ref.edge_kind == EdgeKind.binds) _ _
              (resolve-StepsTo ref noted sound (k ref (inl refl)))
              (done noted noted (stays nx laws noted)))
            (λ one known _. record_refs-StepsTo path refs one known (λ r i. k r (inr i))) in
        (two, f, then-Step nx laws s noted two note q)

    record_files-StepsTo :
        (irs : List FileIr) (s : LinkState nx)
        → Sound nx laws s
        → ((ref : UnresolvedRef) → In ref (all_refs irs) → is_linkable ref ≡ true)
        → StepsTo nx laws s (record_files nx lower str host root irs s)
    unfolding record_files
    record_files-StepsTo [] s h k = done s s (stays nx laws s)
    record_files-StepsTo (ir ∷ irs) s h k =
        and_then-StepsTo nx laws s _ _ h
          (record_refs-StepsTo ir.path ir.unresolved_refs s h
            (λ r i. k r ((In-append r ir.unresolved_refs (all_refs irs)).1 (inl i))))
          (λ one sound _.
            record_files-StepsTo irs one sound
              (λ r i. k r ((In-append r ir.unresolved_refs (all_refs irs)).1 (inr i))))

    link-StepsTo :
        (irs : List FileIr) (s : LinkState nx)
        → Sound nx laws s
        → ((ref : UnresolvedRef) → In ref (all_refs irs) → is_linkable ref ≡ true)
        → StepsTo nx laws s (link nx lower str host root irs s)
    unfolding link deferred_refs
    link-StepsTo irs s h k =
        and_then-StepsTo nx laws s _ _ h (record_files-StepsTo irs s h k) (λ one sound _.
          resolve_all-StepsTo (deferred_refs irs) one sound
            (λ r i. k r ((In-filter _ r (all_refs irs)).0 i).0))

    -- The link returns a state whose graph has data for every node, the data that `node_obj` has.
    abbrev pub IsLinked : List FileIr → Type 0
    IsLinked irs =
        (t : LinkState nx) × (link nx lower str host root irs (init_linker nx lower str irs)
          ≡ some t)
        × ((n : Text)
            → (nx.node t.graph n ≡ lookup t.node_obj n)
              × (nx.has_node t.graph n ≡ has_key t.node_obj n))

    -- On a graph type that meets the laws: if every reference of the files has a handler or a kind of the
    -- table, then the link of the files returns, and in the graph that it returns every node carries
    -- data, the data that `node_obj` has for it.
    pub link-returns :
        (irs : List FileIr) → All (λ ref. is_linkable ref ≡ true) (all_refs irs) → IsLinked irs
    link-returns irs k =
        let s = init_linker nx lower str irs in
        let sound = init_linker-Sound nx laws lower str irs in
        let (t, e, p) =
          link-StepsTo irs s sound
            (λ ref i. of-All (λ r. is_linkable r ≡ true) (all_refs irs) k ref i) in
        (t, e, (p.after sound.0).0)
