-- ===== src/Linker/Loose/Growth.antt =====
-- The references of src/hdl_kgraph/graph/builder.py that are skipped where they match nothing keep
-- the graph complete.
use hdl_kgraph.Base.{
  refl, inl, inr, sym, subst, In-append, Option, none, List, [], ◌∷◌, Text, lookup, has_key, nat_eq,
  list_eq, ◌==◌, if_intro, if◌then◌else◌, ℕ, after_last, codes,
}
use hdl_kgraph.Schema.{
  NodeKind, EdgeKind, edge_kind_eq, AttrValue, Attrs, confidence_resolved, confidence_unique_match,
}
use hdl_kgraph.Ids.{file_node_id}
use hdl_kgraph.Ir.{UnresolvedRef}
use hdl_kgraph.Graph.{MultiDiGraph, Laws}
use hdl_kgraph.Linker.Store.{LinkState, emit, get_list}
use hdl_kgraph.Linker.Store.Growth.{
  Knows, Sound, StepsTo, Step-Sound, Step, stays, then-Step, emit-Step, emit_edge-Step,
  ensure_stub-Step,
}
use hdl_kgraph.Linker.Targets.{score}
use hdl_kgraph.Linker.Targets.Known.{AllKnown, named-AllKnown}
use hdl_kgraph.Linker.Scopes.{scope_index_for}
use hdl_kgraph.Linker.Scopes.Growth.{
  scope_index_for-Step, scope_read-AllKnown, modules_named-AllKnown, checked-StepsTo,
}
use hdl_kgraph.Linker.Loose.{
  Host, emit_all, is_resolved, dut_signals, covers_modules, touches_signals, resolve_cocotb,
  own_actions, emit_scored, resolve_sln, emit_matches, resolve_constrains, file_target,
  resolve_file_ref, canonical_file_target, str_or_empty, query_kinds, pin_leaf, is_glob,
  glob_targets, named,
}

module _ (nx : MultiDiGraph) (laws : Laws nx) (lower : Text → Text) (str : AttrValue → Text)
    (ref : UnresolvedRef) where
  pub emit_all-Step :
      (ts : List Text) (confidence : ℕ) (extra : Attrs) (s : LinkState nx)
      → Step nx laws s (emit_all nx lower str ref ts confidence extra s)
  unfolding emit_all
  emit_all-Step [] confidence extra s = stays nx laws s
  emit_all-Step (t ∷ ts) confidence extra s =
      let one = emit nx lower str ref t confidence none extra s in
      then-Step nx laws s one (emit_all nx lower str ref ts confidence extra one)
        (emit-Step nx laws lower str ref t confidence none extra s)
        (emit_all-Step ts confidence extra one)

  -- One known id.
  one_known :
      (id : Text) (s : LinkState nx) → Knows nx s id → AllKnown nx laws lower str s (id ∷ [])
  one_known id s k x i = elim i [ inl e ↦ subst (λ y. Knows nx s y) (sym e) k | inr n ↦ absurd n ]

  covers_modules-StepsTo :
      (ids : List Text) (s : LinkState nx)
      → Sound nx laws s
      → AllKnown nx laws lower str s ids
      → StepsTo nx laws s (covers_modules nx lower str ref ids s)
  unfolding covers_modules
  covers_modules-StepsTo [] s h k = (s, refl, stays nx laws s)
  covers_modules-StepsTo (id ∷ ids) s h k =
      let one = emit nx lower str ref id ref.confidence none [] s in
      let first = emit-Step nx laws lower str ref id ref.confidence none [] s in
      let (two, f, q) =
        covers_modules-StepsTo ids one (Step-Sound nx laws s one h first)
          (λ x i. (first.after h.0).1 x (k x (inr i))) in
      checked-StepsTo nx laws lower str s (id ∷ []) _ (one_known id s (k id (inl refl))) (
        if_intro (StepsTo nx laws s) (is_resolved nx lower str s id) _ _
          (two, f, then-Step nx laws s one two first q)
          (covers_modules-StepsTo ids s h (λ x i. k x (inr i))))

  touches_signals-StepsTo :
      (ids : List Text) (s : LinkState nx)
      → Sound nx laws s
      → AllKnown nx laws lower str s ids
      → StepsTo nx laws s (touches_signals nx lower str ref ids s)
  unfolding touches_signals
  touches_signals-StepsTo [] s h k = (s, refl, stays nx laws s)
  touches_signals-StepsTo (id ∷ ids) s h k =
      let (index, one) = scope_index_for nx lower str id s in
      let signals = dut_signals nx lower str (get_list (lookup index ref.target_name)) in
      let two = emit_all nx lower str ref signals ref.confidence [] one in
      let known = k id (inl refl) in
      let first =
        then-Step nx laws s one two (scope_index_for-Step nx laws lower str id s)
          (emit_all-Step signals ref.confidence [] one) in
      let (three, f, q) =
        touches_signals-StepsTo ids two (Step-Sound nx laws s two h first)
          (λ x i. (first.after h.0).1 x (k x (inr i))) in
      checked-StepsTo nx laws lower str s (id ∷ []) _ (one_known id s known) (
        if_intro (StepsTo nx laws s) (is_resolved nx lower str s id) _ _
          (checked-StepsTo nx laws lower str s _ _
            (scope_read-AllKnown nx laws lower str id s h known)
            (three, f, then-Step nx laws s two three first q))
          (touches_signals-StepsTo ids s h (λ x i. k x (inr i))))

  pub resolve_cocotb-StepsTo :
      (s : LinkState nx) → Sound nx laws s → StepsTo nx laws s (resolve_cocotb nx lower str ref s)
  unfolding resolve_cocotb
  resolve_cocotb-StepsTo s h =
      if_intro (StepsTo nx laws s) (ref.edge_kind == EdgeKind.test_covers) _ _
        (covers_modules-StepsTo _ s h (modules_named-AllKnown nx laws lower str _ s h))
        (touches_signals-StepsTo _ s h (modules_named-AllKnown nx laws lower str _ s h))

  emit_scored-Step :
      (ts : List Text) (s : LinkState nx) → Step nx laws s (emit_scored nx lower str ref ts s)
  unfolding emit_scored
  emit_scored-Step [] s = stays nx laws s
  emit_scored-Step (t ∷ ts) s =
      emit_all-Step (score nx lower str s (t ∷ ts) ref.src_id).0
        (score nx lower str s (t ∷ ts) ref.src_id).1 [] s

  pub resolve_sln-StepsTo :
      (s : LinkState nx) → Sound nx laws s → StepsTo nx laws s (resolve_sln nx lower str ref s)
  unfolding resolve_sln
  resolve_sln-StepsTo s h =
      if_intro (StepsTo nx laws s) (ref.edge_kind == EdgeKind.invokes) _ _
        (_, refl, emit_all-Step (own_actions nx lower str ref s) confidence_resolved [] s)
        (checked-StepsTo nx laws lower str s _ _
          (λ id i. elim ((In-append id _ _).0 i) [
            | inl j ↦ modules_named-AllKnown nx laws lower str ref.target_name s h id j
            | inr j ↦ named-AllKnown nx laws lower str s _ ref.target_name h.1 id j
          ])
          (_, refl, emit_scored-Step _ s))

  emit_matches-Step :
      (unique : ℕ) (ts : List Text) (s : LinkState nx)
      → Step nx laws s (emit_matches nx lower str ref unique ts s)
  unfolding emit_matches
  emit_matches-Step unique [] s = stays nx laws s
  emit_matches-Step unique (t ∷ []) s = emit_all-Step (t ∷ []) unique [] s
  emit_matches-Step unique (t ∷ u ∷ ts) s = emit_all-Step (t ∷ u ∷ ts) _ [] s

  module _ (host : Host) where
    pub resolve_constrains-Step :
        (s : LinkState nx) → Step nx laws s (resolve_constrains nx lower str host ref s)
    unfolding resolve_constrains
    resolve_constrains-Step s =
        let query = str_or_empty nx lower str ref.attrs (codes "query") in
        let kinds = query_kinds query in
        let name = if query == codes "pins" then pin_leaf ref.target_name else ref.target_name in
        if_intro (Step nx laws s) (is_glob name) _ _
          (emit_matches-Step confidence_unique_match (glob_targets nx lower str host kinds name s)
            s)
          (emit_matches-Step confidence_resolved (named nx lower str s kinds name) s)

    file_target-Step :
        (rel : Text) (s : LinkState nx) → Step nx laws s (file_target nx lower str rel s).1
    unfolding file_target
    file_target-Step rel s =
        if_intro (λ (r : Text × LinkState nx). Step nx laws s r.1)
          (has_key s.node_obj (file_node_id rel)) _ _ (stays nx laws s)
          (ensure_stub-Step nx laws lower str NodeKind.file rel (after_last b'/' rel) s)

    pub resolve_file_ref-Step :
        (root : Option Text) (s : LinkState nx)
        → Step nx laws s (resolve_file_ref nx lower str host root ref s)
    unfolding resolve_file_ref
    resolve_file_ref-Step root s =
        let rel = canonical_file_target host root ref.target_name in
        let (file_id, next) = file_target nx lower str rel s in
        then-Step nx laws s next (resolve_file_ref nx lower str host root ref s)
          (file_target-Step rel s)
          (if_intro (Step nx laws next) (ref.edge_kind == EdgeKind.generated_from) _ _
            (emit_edge-Step nx laws lower str _ next)
            (emit-Step nx laws lower str ref file_id confidence_resolved none [] next))
