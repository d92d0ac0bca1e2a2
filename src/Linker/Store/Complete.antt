-- ===== src/Linker/Store/Complete.antt =====
-- The graph of the linker has no node without data: what `_ensure_endpoint` of
-- src/hdl_kgraph/graph/builder.py is there for.
use hdl_kgraph.Base.{
  ◌++◌, pair_eq, ◌≡◌, refl, true, ◌||◌, Option, none, some, List, [], ◌∷◌, Text, lookup, has_key,
  lookup-insert, has_key-insert, nat_eq, list_eq, ◌==◌, ==_iff, if_intro, arith, ==_refl, ℕ,
  contains,
}
use hdl_kgraph.Schema.{edge_kind_eq, Node, Edge, NodeKind, EdgeKind, AttrValue, Attrs}
use hdl_kgraph.Ir.{UnresolvedRef, FileIr}
use hdl_kgraph.Graph.{MultiDiGraph, Laws}
use hdl_kgraph.Linker.Store.{
  LinkState, endpoint_stub, target_stub, add_known, ensure_endpoint, add_ensured, index_node,
  index_nodes, index_files, note_declared, add_locals, add_files, blank, init_linker, ensure_stub,
  host_stub, stub_child, emit_edge, emit, stub_of, parse_node_id, LocalKey, stub_node_id, obj_of,
}

id-stub_of : (id : Text) (o : Option (NodeKind × Text)) → (stub_of id o).id ≡ id
unfolding stub_of
id-stub_of id none = refl
id-stub_of id (some (kind, name)) = refl

id-endpoint_stub : (id : Text) → (endpoint_stub id).id ≡ id
unfolding endpoint_stub
id-endpoint_stub id = id-stub_of id (parse_node_id id)

module _ (nx : MultiDiGraph) (laws : Laws nx) where
  -- Every node of the graph is known, with the data that `node_obj` has for it.
  abbrev pub IsComplete : LinkState nx → Type 0
  IsComplete s =
      (n : Text)
      → (nx.node s.graph n ≡ lookup s.node_obj n) × (nx.has_node s.graph n ≡ has_key s.node_obj n)

  module _ (lower : Text → Text) (str : AttrValue → Text) where
    pub blank-IsComplete : IsComplete (blank nx lower str)
    unfolding lookup has_key
    blank-IsComplete n = (laws.node-empty n, laws.has_node-empty n)

    pub add_known-IsComplete :
        (x : Node) (s : LinkState nx) → IsComplete s → IsComplete (add_known nx lower str x s)
    unfolding add_known
    add_known-IsComplete x s h n = (
      rw (laws.node-add_node s.graph x n)
          (rw (lookup-insert s.node_obj x.id x n) (rw ((h n).0) refl)),
      rw (laws.has_node-add_node s.graph x n)
          (rw (has_key-insert s.node_obj x.id x n) (rw ((h n).1) refl)),
    )

    -- An edge between known nodes.
    add_edge-IsComplete :
        (e : Edge) (s : LinkState nx)
        → has_key s.node_obj e.src ≡ true
        → has_key s.node_obj e.dst ≡ true
        → IsComplete s
        → IsComplete (record s { graph = nx.add_edge s.graph e })
    add_edge-IsComplete e s hs hd h n = (
      rw (laws.node-add_edge s.graph e n) ((h n).0),
      ground (arith, laws.has_node-add_edge s.graph e n, h n, ==_iff e.src n, ==_iff e.dst n),
    )

    pub ensure_endpoint-IsComplete :
        (id : Text) (k : EdgeKind) (other source : Text) (s : LinkState nx)
        → IsComplete s
        → IsComplete (ensure_endpoint nx lower str id k other source s)
    unfolding ensure_endpoint
    ensure_endpoint-IsComplete id k other source s h =
        if_intro IsComplete _ _ _ h (add_known-IsComplete (endpoint_stub id) s h)

    -- Afterwards the end is known, and what was known still is.
    pub has_key-ensure_endpoint :
        (id : Text) (k : EdgeKind) (other source : Text) (s : LinkState nx) (n : Text)
        → has_key (ensure_endpoint nx lower str id k other source s).node_obj n
          ≡ (id == n || has_key s.node_obj n)
    unfolding ensure_endpoint add_known
    has_key-ensure_endpoint id k other source s n = ground (
      arith,
      has_key-insert s.node_obj (endpoint_stub id).id (endpoint_stub id) n,
      id-endpoint_stub id,
      ==_iff id n,
    )

    pub add_ensured-IsComplete :
        (e : Edge) (source : Text) (s : LinkState nx)
        → IsComplete s
        → IsComplete (add_ensured nx lower str e source s)
    unfolding add_ensured
    add_ensured-IsComplete e source s h =
        let one = ensure_endpoint nx lower str e.src e.kind e.dst source s in
        let two = ensure_endpoint nx lower str e.dst e.kind e.src source one in
        add_edge-IsComplete e two
          (ground (
            arith,
            has_key-ensure_endpoint e.src e.kind e.dst source s e.src,
            has_key-ensure_endpoint e.dst e.kind e.src source one e.src,
            ==_refl e.src,
          ))
          (ground
            (arith, has_key-ensure_endpoint e.dst e.kind e.src source one e.dst, ==_refl e.dst))
          (ensure_endpoint-IsComplete e.dst e.kind e.src source one
            (ensure_endpoint-IsComplete e.src e.kind e.dst source s h))

    index_node-IsComplete :
        (path : Text) (x : Node) (s : LinkState nx)
        → IsComplete s
        → IsComplete (index_node nx lower str path x s)
    unfolding index_node
    index_node-IsComplete path x s h = if_intro IsComplete _ _ _ h (add_known-IsComplete x s h)

    index_nodes-IsComplete :
        (path : Text) (xs : List Node) (s : LinkState nx)
        → IsComplete s
        → IsComplete (index_nodes nx lower str path xs s)
    unfolding index_nodes
    index_nodes-IsComplete path [] s h = h
    index_nodes-IsComplete path (x ∷ xs) s h =
        index_nodes-IsComplete path xs _ (index_node-IsComplete path x s h)

    pub index_files-IsComplete :
        (irs : List FileIr) (s : LinkState nx)
        → IsComplete s
        → IsComplete (index_files nx lower str irs s)
    unfolding index_files
    index_files-IsComplete [] s h = h
    index_files-IsComplete (ir ∷ irs) s h =
        index_files-IsComplete irs _ (index_nodes-IsComplete ir.path ir.nodes s h)

    note_declared-IsComplete :
        (e : Edge) (s : LinkState nx) → IsComplete s → IsComplete (note_declared nx lower str e s)
    unfolding note_declared
    note_declared-IsComplete e s h = if_intro IsComplete (e.kind == EdgeKind.declares) _ _ h h

    add_locals-IsComplete :
        (path : Text) (es : List Edge) (seen : List LocalKey) (s : LinkState nx)
        → IsComplete s
        → IsComplete (add_locals nx lower str path es seen s).1
    unfolding add_locals
    add_locals-IsComplete path [] seen s h = h
    add_locals-IsComplete path (e ∷ es) seen s h =
        if_intro (λ (r : List LocalKey × LinkState nx). IsComplete r.1)
          (contains {A = LocalKey} seen ((e.src, e.dst), e.kind)) _ _
          (add_locals-IsComplete path es seen s h)
          (add_locals-IsComplete path es _ _
            (note_declared-IsComplete e _ (add_ensured-IsComplete e path s h)))

    add_files-IsComplete :
        (irs : List FileIr) (seen : List LocalKey) (s : LinkState nx)
        → IsComplete s
        → IsComplete (add_files nx lower str irs seen s)
    unfolding add_files
    add_files-IsComplete [] seen s h = h
    add_files-IsComplete (ir ∷ irs) seen s h =
        add_files-IsComplete irs _ _ (add_locals-IsComplete ir.path ir.local_edges seen s h)

    -- Whatever nodes and edges the files bring, dangling edges included, every node of the graph that
    -- `__init__` builds carries data, and it is the data that `node_obj` has for it.
    pub init_linker-IsComplete :
        (irs : List FileIr) (n : Text)
        → let s = init_linker nx lower str irs in
          (nx.node s.graph n ≡ lookup s.node_obj n) × (nx.has_node s.graph n ≡ has_key s.node_obj n)
    unfolding init_linker
    init_linker-IsComplete irs =
        add_files-IsComplete irs [] _ (index_files-IsComplete irs _ blank-IsComplete)

    -- If every node of the graph carries the data that `node_obj` has for it, then this still holds
    -- after `_emit`, whatever the ends of the edge are.
    pub emit-IsComplete :
        (ref : UnresolvedRef) (dst : Text) (confidence : ℕ) (port_name : Option Text)
        (extra : Attrs) (s : LinkState nx)
        → IsComplete s
        → (n : Text)
        → let t = emit nx lower str ref dst confidence port_name extra s in
          (nx.node t.graph n ≡ lookup t.node_obj n) × (nx.has_node t.graph n ≡ has_key t.node_obj n)
    unfolding emit emit_edge
    emit-IsComplete ref dst confidence port_name extra s h =
        if_intro IsComplete _ _ _ h (add_ensured-IsComplete _ [] _ h)

    pub ensure_stub-IsComplete :
        (kind : NodeKind) (qualified name : Text) (s : LinkState nx)
        → IsComplete s
        → IsComplete (ensure_stub nx lower str kind qualified name s).1
    unfolding ensure_stub
    ensure_stub-IsComplete kind qualified name s h =
        if_intro IsComplete (nx.has_node s.graph (stub_node_id kind qualified)) _ _ h
          (add_known-IsComplete (target_stub kind qualified name) s h)

    -- The id that it returns is known afterwards, and so is what was known.
    pub ensure_stub-known :
        (kind : NodeKind) (qualified name n : Text) (s : LinkState nx)
        → IsComplete s
        → has_key (ensure_stub nx lower str kind qualified name s).1.node_obj n
          ≡ (stub_node_id kind qualified == n || has_key s.node_obj n)
    unfolding ensure_stub add_known target_stub
    ensure_stub-known kind qualified name n s h = ground (
      arith,
      h (stub_node_id kind qualified),
      ==_iff (stub_node_id kind qualified) n,
      has_key-insert s.node_obj (stub_node_id kind qualified) (target_stub kind qualified name) n,
    )

    pub host_stub-IsComplete :
        (parent_id stub_id : Text) (s : LinkState nx)
        → has_key s.node_obj parent_id ≡ true
        → has_key s.node_obj stub_id ≡ true
        → IsComplete s
        → IsComplete (host_stub nx lower str parent_id stub_id s)
    unfolding host_stub
    host_stub-IsComplete parent_id stub_id s hp hs h =
        if_intro IsComplete _ _ _ h (add_edge-IsComplete _ s hp hs h)

    -- Where the target is known, hosting a stub of a child under it keeps every node of the graph
    -- with data.
    pub stub_child-IsComplete :
        (parent_id : Text) (kind : NodeKind) (name : Text) (s : LinkState nx)
        → IsComplete s
        → has_key s.node_obj parent_id ≡ true
        → IsComplete (stub_child nx lower str parent_id kind name s).1
    unfolding stub_child ensure_stub
    stub_child-IsComplete parent_id kind name s h k =
        let qualified = (obj_of nx lower str s parent_id).name ++ b'.' ∷ name in
        let next = (ensure_stub nx lower str kind qualified name s).1 in
        host_stub-IsComplete parent_id (stub_node_id kind qualified) next
          (ground (arith, ensure_stub-known kind qualified name parent_id s h))
          (ground (
            arith,
            ensure_stub-known kind qualified name (stub_node_id kind qualified) s h,
            ==_refl (stub_node_id kind qualified),
          ))
          (ensure_stub-IsComplete kind qualified name s h)
