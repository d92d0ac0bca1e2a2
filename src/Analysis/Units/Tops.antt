-- ===== src/Analysis/Units/Tops.antt =====
-- The roots of the design hierarchy of src/hdl_kgraph/graph/analysis.py.
use hdl_kgraph.Base.{
  ◌≡◌, refl, ◌↔◌, inl, inr, true, false, Text, In, In-sort_by, In-map, In-map_of, In-filter, map,
  filter, contains, length, nat_eq, ◌==◌, ==_iff, arith, IsSorted, sort_by-IsSorted, text_leb_total,
  sym, subst, List-cases,
}
use hdl_kgraph.Schema.{Node, Edge, node_kind_eq, EdgeKind, edge_kind_eq}
use hdl_kgraph.Graph.{MultiDiGraph, Laws, data_of}
use hdl_kgraph.Analysis.Units.{
  hierarchy_root_kinds, is_stub, in_of_kind, is_top, by_qualified_name, find_top_modules,
}

module _ (nx : MultiDiGraph) (laws : Laws nx) (lower : Text → Text) (g : nx.Graph) where
  -- No edge of the graph instantiates the node.
  abbrev pub NotInstantiated : Text → Type 0
  NotInstantiated id =
      ¬ ((e : Edge) × In e (nx.edges g) × (e.dst ≡ id) × (e.kind ≡ EdgeKind.instantiates))

  none_in :
      (id : Text)
      → (length (in_of_kind nx lower g id EdgeKind.instantiates) ≡ 0) ↔ NotInstantiated id
  unfolding in_of_kind
  none_in id =
      let p = λ (e : Edge). e.kind == EdgeKind.instantiates in
      let found = filter p (nx.in_edges g id) in
      (
        (λ h (e, i, d, k).
            let j : In e found =
              (In-filter p e (nx.in_edges g id)).1
                ((laws.in_edges_iff g id e).1 (i, d), (==_iff e.kind EdgeKind.instantiates).1 k) in
            elim (List-cases found) [
              | inl q ↦ rw q at j
              | inr (x, rest, q) ↦ absurd (ground arith)
            ]),
        (λ h. elim (List-cases found) [
          | inl q ↦ rw q refl
          | inr (x, rest, q) ↦
              let i : In x found = rw q (inl refl) in
              let (j, k) = (In-filter p x (nx.in_edges g id)).0 i in
              let (m, d) = (laws.in_edges_iff g id x).0 j in
              absurd (h (x, m, d, (==_iff x.kind EdgeKind.instantiates).0 k))
        ]),
      )

  -- In a graph that meets the laws the result has exactly the ids of the modules and entities of the graph that are no stubs and that
  -- no edge instantiates, in the order of their qualified names.
  pub find_top_modules_lem :
      (id : Text)
      → (In id (find_top_modules nx lower g) ↔ (
          ((x : Node) × In x (nx.nodes g)
            × (x.id ≡ id)
            × (contains hierarchy_root_kinds x.kind ≡ true))
          × (is_stub nx lower g id ≡ false)
          × NotInstantiated id))
        × IsSorted (by_qualified_name nx lower g) (find_top_modules nx lower g)
  unfolding find_top_modules is_top by_qualified_name
  find_top_modules_lem id =
      let p = is_top nx lower g in
      let ids = map (λ (x : Node). x.id) (filter p (nx.nodes g)) in
      let le = by_qualified_name nx lower g in
      (
        (
          (λ h.
              let i = (In-sort_by le id ids).0 h in
              let (x, j, e) = In-map (λ (x : Node). x.id) id (filter p (nx.nodes g)) i in
              let (m, t) = (In-filter p x (nx.nodes g)).0 j in
              (
                (x, m, sym e, ground arith),
                subst (λ n. is_stub nx lower g n ≡ false) (sym e) (ground arith),
                (none_in id).0 (
                    subst (λ n. length (in_of_kind nx lower g n EdgeKind.instantiates) ≡ 0) (sym e)
                      (ground arith)),
              )),
          (λ ((x, m, e, k), n, q).
              let z = (none_in id).1 q in
              let t : p x ≡ true = ground arith in
              (In-sort_by le id ids).1 (
                subst (λ n. In n ids) e
                  (In-map_of (λ (x : Node). x.id) x (filter p (nx.nodes g))
                    ((In-filter p x (nx.nodes g)).1 (m, t))))),
        ),
        sort_by-IsSorted le
            (λ a b. text_leb_total (data_of nx g a).qualified_name (data_of nx g b).qualified_name)
            ids,
      )
