-- ===== src/Preproc/Emitter/Closed.antt =====
-- The edges of `PreprocEmitter` never dangle: both ends are emitted as nodes, in this unit or before.
use hdl_kgraph.Base.{
  refl, sym, ◌⊎◌, inl, inr, Option, none, some, List, [], ◌∷◌, ◌++◌, ℕ, Text, In, In-append,
  contains, contains_iff, All, All-of, nat_eq, list_eq, pair_eq, if_intro, Bool-cases, subst, map,
  In-map, In-map_of,
}
use hdl_kgraph.Schema.{Node, Edge, NodeKind, EdgeKind, Attrs}
use hdl_kgraph.Preproc.{MacroDef, MacroUse, IncludeEvent, State}
use hdl_kgraph.Preproc.Emitter.{
  Emission, add_node_once, add_edge_once, file_stub, file_node, macro_id, macro_id_by,
  ensure_macro_node, macro_node, from_file, emit_macro, used_node, emit_use, included_node,
  emit_include, emit_each, emit_events, unresolved_node, aggregate_uses,
}

-- The id is that of a node of the unit, or it was emitted before, in a unit of the same build.
abbrev pub IsEmitted : List Text → Emission → Text → Type 0
IsEmitted before s n = In n before ⊎ In n (map (λ x. x.id) s.ir.nodes)

-- Both ends of the edge are emitted.
abbrev pub IsAnchored : List Text → Emission → Edge → Type 0
IsAnchored before s e = IsEmitted before s e.src × IsEmitted before s e.dst

-- Both ends of the edge are among the ids that the emitter keeps.
abbrev IsKept : Emission → Edge → Type 0
IsKept s e = In e.src s.seen_nodes × In e.dst s.seen_nodes

-- Every edge of the unit was there at the start or has its ends among the kept ids.
abbrev IsClosed : List Edge → Emission → Type 0
IsClosed old s = (e : Edge) → In e s.ir.local_edges → In e old ⊎ IsKept s e

-- Every id that the emitter keeps is emitted.
abbrev IsHonest : List Text → Emission → Type 0
IsHonest before s = (n : Text) → In n s.seen_nodes → IsEmitted before s n

-- The second emission has the nodes of the first.
abbrev Grows : Emission → Emission → Type 0
Grows s t = (n : Text) → In n s.seen_nodes → In n t.seen_nodes

module _ (old : List Edge) (before : List Text) where
  -- A step that closes the edges of the unit, loses no node and keeps the id of no other.
  abbrev Keeps : Emission → Emission → Type 0
  Keeps s t =
      Grows s t × ((IsClosed old s → IsClosed old t) × (IsHonest before s → IsHonest before t))

  unchanged : (s : Emission) → Keeps s s
  unchanged s = ((λ n i. i), ((λ h. h), (λ h. h)))

  -- An id that is added with its node is emitted.
  with_node :
      (x : Node) (s : Emission)
      → IsHonest before s
      → (n : Text) → In n (s.seen_nodes ++ x.id ∷ [])
      → In n before ⊎ In n (map (λ x. x.id) (s.ir.nodes ++ x ∷ []))
  with_node x s h n i = elim ((In-append n s.seen_nodes (x.id ∷ [])).0 i) [
    | inl j ↦ elim (h n j) [
      | inl b ↦ inl b
      | inr k ↦
          let (y, l, e) = In-map (λ (x : Node). x.id) n s.ir.nodes k in
          inr (
            rw e (
              In-map_of (λ (x : Node). x.id) y (s.ir.nodes ++ x ∷ [])
                ((In-append y s.ir.nodes (x ∷ [])).1 (inl l))))
    ]
    | inr (inl e) ↦ inr (
        rw e (
          In-map_of (λ (x : Node). x.id) x (s.ir.nodes ++ x ∷ [])
            ((In-append x s.ir.nodes (x ∷ [])).1 (inr (inl refl)))))
    | inr (inr bad) ↦ elim bad [ ]
  ]

  add_node_once-seen : (x : Node) (s : Emission) → In x.id (add_node_once x s).seen_nodes
  unfolding add_node_once
  add_node_once-seen x s = elim (Bool-cases (contains s.seen_nodes x.id)) [
    | inl e ↦ rw e ((contains_iff s.seen_nodes x.id).0 e)
    | inr e ↦ rw e ((In-append x.id s.seen_nodes (x.id ∷ [])).1 (inr (inl refl)))
  ]

  widen :
      (s : Emission) (seen : List Text)
      → ((n : Text) → In n s.seen_nodes → In n seen)
      → IsClosed old s
      → (e : Edge) → In e s.ir.local_edges
      → In e old ⊎ (In e.src seen × In e.dst seen)
  widen s seen g h e i = elim (h e i) [ inl o ↦ inl o | inr (a, b) ↦ inr (g e.src a, g e.dst b) ]

  Grows-append : (s : Emission) (n m : Text) → In m s.seen_nodes → In m (s.seen_nodes ++ n ∷ [])
  Grows-append s n m i = (In-append m s.seen_nodes (n ∷ [])).1 (inl i)

  add_node_once-Keeps : (x : Node) (s : Emission) → Keeps s (add_node_once x s)
  unfolding add_node_once
  add_node_once-Keeps x s = if_intro (Keeps s) (contains s.seen_nodes x.id) _ _ (unchanged s) (
    Grows-append s x.id,
    (widen s (s.seen_nodes ++ x.id ∷ []) (Grows-append s x.id), with_node x s),
  )

  add_edge_once-Keeps : (e : Edge) (s : Emission) → IsKept s e → Keeps s (add_edge_once e s)
  unfolding add_edge_once
  add_edge_once-Keeps e s (a, b) = if_intro (Keeps s) _ _ _ (unchanged s) (
    (λ n i. i),
    (
      (λ h d i. elim ((In-append d s.ir.local_edges (e ∷ [])).0 i) [
        | inl j ↦ h d j
        | inr (inl q) ↦ inr (subst (λ (c : Edge). IsKept s c) (sym q) (a, b))
        | inr (inr bad) ↦ elim bad [ ]
      ]),
      (λ h. h),
    ),
  )

  -- One step after another.
  then_Keeps : (s t u : Emission) → Keeps s t → Keeps t u → Keeps s u
  then_Keeps s t u (g, (h, k)) (g', (h', k')) =
      ((λ n i. g' n (g n i)), ((λ c. h' (h c)), (λ c. k' (k c))))

  from_file-Keeps :
      (file dst : Text) (k : EdgeKind) (confidence : ℕ) (attrs : Attrs) (s : Emission)
      → In dst s.seen_nodes
      → Keeps s (from_file file dst k confidence attrs s)
  unfolding from_file file_stub file_node
  from_file-Keeps file dst k confidence attrs s i =
      let stubbed = add_node_once-Keeps (file_node file) s in
      then_Keeps s (file_stub file s) (from_file file dst k confidence attrs s) stubbed (
        add_edge_once-Keeps _ (file_stub file s)
          (add_node_once-seen (file_node file) s, stubbed.0 dst i))

  macro_id_by-Keeps :
      (o : Option Text) (macro : MacroDef) (s : Emission) → Keeps s (macro_id_by o macro s).1
  unfolding macro_id_by
  macro_id_by-Keeps none macro s = ((λ n i. i), ((λ h. h), (λ h. h)))
  macro_id_by-Keeps (some id) macro s = unchanged s

  -- A step that returns the id of a node that is there afterwards.
  abbrev Provides : Emission → Text × Emission → Type 0
  Provides s r = Keeps s r.1 × In r.0 r.1.seen_nodes

  ensure_macro_node-Provides :
      (macro : MacroDef) (s : Emission) → Provides s (ensure_macro_node macro s)
  unfolding ensure_macro_node macro_node macro_id
  ensure_macro_node-Provides macro s =
      let named = macro_id macro s in
      (
        then_Keeps s named.1 (ensure_macro_node macro s).1 (macro_id_by-Keeps _ macro s)
            (add_node_once-Keeps (macro_node named.0 macro) named.1),
        add_node_once-seen (macro_node named.0 macro) named.1,
      )

  used_node-Provides :
      (name : Text) (o : Option MacroDef) (s : Emission) → Provides s (used_node name o s)
  unfolding used_node unresolved_node
  used_node-Provides name none s = (
    add_node_once-Keeps (unresolved_node NodeKind.macro name) s,
    add_node_once-seen (unresolved_node NodeKind.macro name) s,
  )
  used_node-Provides name (some macro) s = ensure_macro_node-Provides macro s

  included_node-Provides :
      (text : Text) (o : Option Text) (s : Emission) → Provides s (included_node text o s)
  unfolding included_node unresolved_node file_stub file_node
  included_node-Provides text none s = (
    add_node_once-Keeps (unresolved_node NodeKind.include_file text) s,
    add_node_once-seen (unresolved_node NodeKind.include_file text) s,
  )
  included_node-Provides text (some r) s =
      (add_node_once-Keeps (file_node r) s, add_node_once-seen (file_node r) s)

  emit_macro-Keeps : (macro : MacroDef) (s : Emission) → Keeps s (emit_macro macro s)
  unfolding emit_macro
  emit_macro-Keeps macro s =
      let (k, i) = ensure_macro_node-Provides macro s in
      then_Keeps s (ensure_macro_node macro s).1 (emit_macro macro s) k
        (from_file-Keeps _ _ _ _ _ _ i)

  emit_use-Keeps : (u : MacroUse) (s : Emission) → Keeps s (emit_use u s)
  unfolding emit_use
  emit_use-Keeps u s =
      let (k, i) = used_node-Provides u.name u.macro s in
      then_Keeps s (used_node u.name u.macro s).1 (emit_use u s) k (from_file-Keeps _ _ _ _ _ _ i)

  emit_include-Keeps : (x : IncludeEvent) (s : Emission) → Keeps s (emit_include x s)
  unfolding emit_include
  emit_include-Keeps x s =
      let (k, i) = included_node-Provides x.path_text x.resolved s in
      then_Keeps s (included_node x.path_text x.resolved s).1 (emit_include x s) k
        (from_file-Keeps _ _ _ _ _ _ i)

  emit_each-Keeps :
      {A : Type 0} (step : A → Emission → Emission) (xs : List A) (s : Emission)
      → ((x : A) (t : Emission) → Keeps t (step x t))
      → Keeps s (emit_each step xs s)
  unfolding emit_each
  emit_each-Keeps step [] s k = unchanged s
  emit_each-Keeps step (x ∷ xs) s k =
      then_Keeps s (step x s) (emit_each step xs (step x s)) (k x s)
        (emit_each-Keeps step xs (step x s) k)

  emit_events-Keeps : (pp : State) (s : Emission) → Keeps s (emit_events pp s)
  unfolding emit_events
  emit_events-Keeps pp s =
      let one = emit_each emit_macro pp.macro_defs s in
      let two = emit_each emit_use (aggregate_uses [] pp.macro_uses) one in
      then_Keeps s one (emit_events pp s)
        (emit_each-Keeps emit_macro pp.macro_defs s emit_macro-Keeps)
        (then_Keeps one two (emit_events pp s)
          (emit_each-Keeps emit_use (aggregate_uses [] pp.macro_uses) one emit_use-Keeps)
          (emit_each-Keeps emit_include pp.includes two emit_include-Keeps))

-- Whatever the emitter has seen before and whatever a run recorded, each edge that `emit` adds to the
-- unit has both ends emitted: each is the id of a node of the unit after the call, or an id that the
-- emitter had before it.
pub emit_events-IsAnchored :
    (pp : State) (s : Emission)
    → All
        (λ e. In e s.ir.local_edges ⊎ IsAnchored s.seen_nodes (emit_events pp s) e)
        (emit_events pp s).ir.local_edges
emit_events-IsAnchored pp s =
    let (_, (closed, honest)) = emit_events-Keeps s.ir.local_edges s.seen_nodes pp s in
    let emitted = honest (λ n i. inl i) in
    All-of (λ e. In e s.ir.local_edges ⊎ IsAnchored s.seen_nodes (emit_events pp s) e) _
      (λ e i. elim (closed (λ e i. inl i) e i) [
        | inl o ↦ inl o
        | inr (a, b) ↦ inr (emitted e.src a, emitted e.dst b)
      ])
