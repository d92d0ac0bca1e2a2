-- ===== src/Linker/Store/Growth.antt =====
-- What every operation of the linker of src/hdl_kgraph/graph/builder.py does to the state: the graph
-- stays complete, no node is forgotten, and the definitions stay.
use hdl_kgraph.Base.{
  none, some, ◌≡◌, refl, ◌∙◌, true, Option, [], ◌∷◌, ◌++◌, Text, has_key, has_key-insert, nat_eq,
  pair_eq, list_eq, ==_refl, if_intro, arith, ℕ, In, lookup, List, some, and_then, subst,
}
use hdl_kgraph.Schema.{Node, Edge, NodeKind, node_kind_eq, EdgeKind, AttrValue, Attrs}
use hdl_kgraph.Ids.{stub_node_id}
use hdl_kgraph.Ir.{UnresolvedRef}
use hdl_kgraph.Graph.{MultiDiGraph, Laws}
use hdl_kgraph.Linker.Store.{
  EmittedKey, LinkState, add_known, ensure_endpoint, add_ensured, ensure_stub, host_stub,
  stub_child, emit_edge, emit, target_stub, endpoint_stub, obj_of, get_list,
}
use hdl_kgraph.Linker.Store.Complete.{
  IsComplete, add_known-IsComplete, add_ensured-IsComplete, ensure_stub-known,
  stub_child-IsComplete,
}

module _ (nx : MultiDiGraph) where
  abbrev pub Knows : LinkState nx → Text → Type 0
  Knows s n = has_key s.node_obj n ≡ true

module _ (nx : MultiDiGraph) (laws : Laws nx) where
  -- From a complete state a complete one, with the nodes and the definitions that there were.
  pub record Step (s t : LinkState nx) : Type 0 where
    pub after :
        IsComplete nx laws s
        → IsComplete nx laws t
          × ((n : Text) → Knows nx s n → Knows nx t n)
          × ((t.definitions ≡ s.definitions) × (t.definitions_ci ≡ s.definitions_ci))

  pub stays : (s : LinkState nx) → Step s s
  stays s = record { after = λ h. (h, (λ n k. k), (refl, refl)) }

  pub then-Step : (s t u : LinkState nx) → Step s t → Step t u → Step s u
  then-Step s t u p q = record {
    after = λ h.
        let (ht, kt, (dt, ct)) = p.after h in
        let (hu, ku, (du, cu)) = q.after ht in (hu, (λ n k. ku n (kt n k)), (du ∙ dt, cu ∙ ct));
  }

  -- The call returns, with a step.
  abbrev pub StepsTo : LinkState nx → Option (LinkState nx) → Type 0
  StepsTo s o = (t : LinkState nx) × (o ≡ some t) × Step s t

  -- The candidates of every name are nodes.
  abbrev pub DefinitionsKnown : LinkState nx → Type 0
  DefinitionsKnown s =
      (key : NodeKind × Text) (id : Text)
      → (In id (get_list (lookup s.definitions key)) → Knows nx s id)
        × (In id (get_list (lookup s.definitions_ci key)) → Knows nx s id)

  abbrev pub Sound : LinkState nx → Type 0
  Sound s = IsComplete nx laws s × DefinitionsKnown s

  pub Step-Sound : (s t : LinkState nx) → Sound s → Step s t → Sound t
  Step-Sound s t (h, d) p =
      let (ht, kt, (dt, ct)) = p.after h in
      (
        ht,
        (λ key id.
            ((λ i. kt id ((d key id).0 (rw dt at i))), (λ i. kt id ((d key id).1 (rw ct at i))))),
      )

  -- What returns, followed by what returns from there.
  pub and_then-StepsTo :
      (s : LinkState nx) (o : Option (LinkState nx)) (next : LinkState nx → Option (LinkState nx))
      → Sound s
      → StepsTo s o
      → ((t : LinkState nx) → Sound t → Step s t → StepsTo t (next t))
      → StepsTo s (and_then o next)
  and_then-StepsTo s none next h (t, e, p) k = absurd (ground arith)
  and_then-StepsTo s (some a) next h (t, e, p) k =
      let same : t ≡ a = ground arith in
      let q : Step s a = subst (Step s) same p in
      let (u, f, r) = k a (Step-Sound s a h q) q in (u, f, then-Step s a u q r)

module _ (nx : MultiDiGraph) (laws : Laws nx) (lower : Text → Text) (str : AttrValue → Text) where
  add_known-Step : (x : Node) (s : LinkState nx) → Step nx laws s (add_known nx lower str x s)
  unfolding add_known
  add_known-Step x s = record {
    after = λ h. (
      add_known-IsComplete nx laws lower str x s h,
      (λ n k. ground (arith, has_key-insert s.node_obj x.id x n)),
      (refl, refl),
    );
  }

  ensure_endpoint-Step :
      (id : Text) (k : EdgeKind) (other source : Text) (s : LinkState nx)
      → Step nx laws s (ensure_endpoint nx lower str id k other source s)
  unfolding ensure_endpoint
  ensure_endpoint-Step id k other source s =
      if_intro (Step nx laws s) (has_key s.node_obj id) _ _ (stays nx laws s)
        (record { after = λ h. (add_known-Step (endpoint_stub id) s).after h })

  pub add_ensured-Step :
      (e : Edge) (source : Text) (s : LinkState nx)
      → Step nx laws s (add_ensured nx lower str e source s)
  unfolding add_ensured
  add_ensured-Step e source s =
      let one = ensure_endpoint nx lower str e.src e.kind e.dst source s in
      let both =
        then-Step nx laws s one (ensure_endpoint nx lower str e.dst e.kind e.src source one)
          (ensure_endpoint-Step e.src e.kind e.dst source s)
          (ensure_endpoint-Step e.dst e.kind e.src source one) in
      record {
        after = λ h. (
          add_ensured-IsComplete nx laws lower str e source s h,
          (both.after h).1,
          (both.after h).2,
        );
      }

  emitted-Step :
      (e : Edge) (emitted : List EmittedKey) (s : LinkState nx)
      → Step nx laws s (add_ensured nx lower str e [] (record s { emitted = emitted }))
  emitted-Step e emitted s = record {
    after = λ h. (add_ensured-Step e [] (record s { emitted = emitted })).after h;
  }

  pub emit_edge-Step : (e : Edge) (s : LinkState nx) → Step nx laws s (emit_edge nx lower str e s)
  unfolding emit_edge
  emit_edge-Step e s = if_intro (Step nx laws s) _ _ _ (stays nx laws s) (emitted-Step e _ s)

  pub emit-Step :
      (ref : UnresolvedRef) (dst : Text) (confidence : ℕ) (port_name : Option Text) (extra : Attrs)
      (s : LinkState nx)
      → Step nx laws s (emit nx lower str ref dst confidence port_name extra s)
  unfolding emit
  emit-Step ref dst confidence port_name extra s = emit_edge-Step _ s

  pub ensure_stub-Step :
      (kind : NodeKind) (qualified name : Text) (s : LinkState nx)
      → Step nx laws s (ensure_stub nx lower str kind qualified name s).1
  unfolding ensure_stub
  ensure_stub-Step kind qualified name s =
      if_intro (Step nx laws s) (nx.has_node s.graph (stub_node_id kind qualified)) _ _
        (stays nx laws s) (add_known-Step (target_stub kind qualified name) s)

  -- The stub that it returns is known.
  pub ensure_stub-Knows :
      (kind : NodeKind) (qualified name : Text) (s : LinkState nx)
      → IsComplete nx laws s
      → let (id, t) = ensure_stub nx lower str kind qualified name s in Knows nx t id
  unfolding ensure_stub
  ensure_stub-Knows kind qualified name s h = ground (
    arith,
    ensure_stub-known nx laws lower str kind qualified name (stub_node_id kind qualified) s h,
    ==_refl (stub_node_id kind qualified),
  )

  host_stub-kept :
      (parent_id stub_id : Text) (s : LinkState nx)
      → let t = host_stub nx lower str parent_id stub_id s in
        (t.node_obj ≡ s.node_obj)
        × (t.definitions ≡ s.definitions)
        × (t.definitions_ci ≡ s.definitions_ci)
  unfolding host_stub
  host_stub-kept parent_id stub_id s =
      if_intro
        (λ (t : LinkState nx).
          (t.node_obj ≡ s.node_obj)
          × (t.definitions ≡ s.definitions)
          × (t.definitions_ci ≡ s.definitions_ci))
        _ _ _ (refl, refl, refl) (refl, refl, refl)

  pub stub_child-Step :
      (parent_id : Text) (kind : NodeKind) (name : Text) (s : LinkState nx)
      → Knows nx s parent_id
      → Step nx laws s (stub_child nx lower str parent_id kind name s).1
  unfolding stub_child ensure_stub
  stub_child-Step parent_id kind name s k =
      let qualified = (obj_of nx lower str s parent_id).name ++ b'.' ∷ name in
      let next = (ensure_stub nx lower str kind qualified name s).1 in
      let (same, ds, cs) = host_stub-kept parent_id (stub_node_id kind qualified) next in
      record {
        after = λ h.
            let (hn, kn, (dn, cn)) = (ensure_stub-Step kind qualified name s).after h in
            (
              stub_child-IsComplete nx laws lower str parent_id kind name s h k,
              (λ n i. rw same (kn n i)),
              (ds ∙ dn, cs ∙ cn),
            );
      }
