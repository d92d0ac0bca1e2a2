-- ===== src/Analysis/Impact/Ends.antt =====
-- Every dependent that `_impact_dependents` of src/hdl_kgraph/graph/analysis.py names is an end of an
-- edge.
use hdl_kgraph.Base.{
  ℕ, zero, suc, ◌≡◌, refl, ◌↔◌, inl, inr, some, List, [], ◌∷◌, ◌++◌, map, Text, In, In-append,
  In-map, In-map_of, In-filter, In-flat_map, nat_eq, list_eq, ◌==◌, arith, flat_map, if_intro, ap,
  sym, subst,
}
use hdl_kgraph.Schema.{Edge, NodeKind, EdgeKind, edge_kind_eq, node_kind_eq}
use hdl_kgraph.Graph.{MultiDiGraph, Laws}
use hdl_kgraph.Climb.{Climbs}
use hdl_kgraph.Climb.Ends.{nearest_lem}
use hdl_kgraph.Analysis.Impact.{
  Dependent, in_unit, declarer, first_src, enclosing_unit, includers, macro_dependent, of_file,
  of_unit, implemented, impact_dependents, ends, kind_of,
}
use hdl_kgraph.Analysis.Impact.Waves.{named}

module _ (nx : MultiDiGraph) (laws : Laws nx) (g : nx.Graph) where
  abbrev IsEnd : Text → Type 0
  IsEnd n = In n (ends nx g)

  src-IsEnd : (e : Edge) → In e (nx.edges g) → IsEnd e.src
  unfolding ends
  src-IsEnd e i =
      (In-append e.src (map (λ (e : Edge). e.src) (nx.edges g))
          (map (λ (e : Edge). e.dst) (nx.edges g))).1
        (inl (In-map_of (λ (e : Edge). e.src) e (nx.edges g) i))

  dst-IsEnd : (e : Edge) → In e (nx.edges g) → IsEnd e.dst
  unfolding ends
  dst-IsEnd e i =
      (In-append e.dst (map (λ (e : Edge). e.src) (nx.edges g))
          (map (λ (e : Edge). e.dst) (nx.edges g))).1
        (inr (In-map_of (λ (e : Edge). e.dst) e (nx.edges g) i))

  incoming : (id : Text) (e : Edge) → In e (nx.in_edges g id) → In e (nx.edges g)
  incoming id e i = ((laws.in_edges_iff g id e).0 i).0

  outgoing : (id : Text) (e : Edge) → In e (nx.out_edges g id) → In e (nx.edges g)
  outgoing id e i = ((laws.out_edges_iff g id e).0 i).0

  first_src-some :
      (es : List Edge) (p : Text) → first_src es ≡ some p → (e : Edge) × In e es × (p ≡ e.src)
  unfolding first_src
  first_src-some [] p h = absurd (ground arith)
  first_src-some (e ∷ es) p h = (e, inl refl, ground arith)

  declarer-edge :
      (id p : Text)
      → declarer nx g id ≡ some p
      → (e : Edge) × In e (nx.edges g) × (e.dst ≡ id) × (p ≡ e.src)
  unfolding declarer
  declarer-edge id p h =
      let (e, i, q) = first_src-some _ p h in
      let j = ((In-filter _ e (nx.in_edges g id)).0 i).0 in
      let (m, d) = (laws.in_edges_iff g id e).0 j in (e, m, d, q)

  has_declarer :
      (c p : Text) → declarer nx g c ≡ some p → In c (map (λ (e : Edge). e.dst) (nx.edges g))
  has_declarer c p h =
      let (e, i, d, q) = declarer-edge c p h in
      subst (λ x. In x (map (λ (e : Edge). e.dst) (nx.edges g))) d
        (In-map_of (λ (e : Edge). e.dst) e (nx.edges g) i)

  -- In a graph that meets the laws the enclosing unit is the nearest unit above the node in the chain of declarers; there is none
  -- exactly where the chain ends, or runs in a cycle, without a unit.
  pub enclosing_unit_lem :
      (node_id unit : Text)
      → (enclosing_unit nx g node_id ≡ some unit)
        ↔ ((n : ℕ) × Climbs (in_unit nx g) (declarer nx g) unit n node_id)
  unfolding enclosing_unit
  enclosing_unit_lem node_id unit =
      nearest_lem (in_unit nx g) (declarer nx g) (map (λ (e : Edge). e.dst) (nx.edges g))
        has_declarer node_id unit

  Climbs-IsEnd :
      (unit : Text) (n : ℕ) (id : Text)
      → Climbs (in_unit nx g) (declarer nx g) unit n id
      → IsEnd id
      → IsEnd unit
  Climbs-IsEnd unit zero id (Climbs.here u) h = h
  Climbs-IsEnd unit (suc n) id (Climbs.up {above = a} u p c) h =
      let (e, i, d, q) = declarer-edge id a p in
      Climbs-IsEnd unit n a c (subst IsEnd (sym q) (src-IsEnd e i))

  -- Each dependent of the list that names a node names an end.
  record NamesEnds (ds : List Dependent) : Type 0 where
    end_of : (d : Dependent) (n : Text) → In d ds → d.0 ≡ some n → IsEnd n

  nothing-NamesEnds : NamesEnds []
  nothing-NamesEnds = record { end_of = λ d n i h. absurd i }

  one-NamesEnds : (x : Text) (kind : EdgeKind) → IsEnd x → NamesEnds ((some x, kind) ∷ [])
  one-NamesEnds x kind k = record {
    end_of = λ d n i h. elim i [
      | inl e ↦
          let same : x ≡ n = ground (arith, ap (λ (p : Dependent). p.0) e) in subst IsEnd same k
      | inr j ↦ absurd j
    ];
  }

  unit-NamesEnds :
      (x : Text) (kind : EdgeKind) → IsEnd x → NamesEnds ((enclosing_unit nx g x, kind) ∷ [])
  unit-NamesEnds x kind k = record {
    end_of = λ d n i h. elim i [
      | inl e ↦
          let found : enclosing_unit nx g x ≡ some n =
            ground (arith, ap (λ (p : Dependent). p.0) e) in
          let (m, c) = (enclosing_unit_lem x n).0 found in Climbs-IsEnd n m x c k
      | inr j ↦ absurd j
    ];
  }

  both-NamesEnds : (xs ys : List Dependent) → NamesEnds xs → NamesEnds ys → NamesEnds (xs ++ ys)
  both-NamesEnds xs ys h k = record {
    end_of = λ d n i e. elim ((In-append d xs ys).0 i) [
      | inl j ↦ h.end_of d n j e
      | inr j ↦ k.end_of d n j e
    ];
  }

  each-NamesEnds :
      (f : Edge → List Dependent) (es : List Edge)
      → ((e : Edge) → In e es → NamesEnds (f e))
      → NamesEnds (flat_map f es)
  each-NamesEnds f es h = record {
    end_of = λ d n i e. let (x, j, k) = In-flat_map f d es i in (h x j).end_of d n k e;
  }

  includers-NamesEnds : (e : Edge) → In e (nx.edges g) → NamesEnds (includers nx g e)
  unfolding includers
  includers-NamesEnds e i =
      if_intro NamesEnds (e.kind == EdgeKind.includes) _ _ (one-NamesEnds e.src _ (src-IsEnd e i))
        nothing-NamesEnds

  macro_dependent-NamesEnds : (e : Edge) → In e (nx.edges g) → NamesEnds (macro_dependent nx g e)
  unfolding macro_dependent
  macro_dependent-NamesEnds e i =
      if_intro NamesEnds (e.kind == EdgeKind.uses_macro) _ _ (one-NamesEnds e.src _ (src-IsEnd e i))
        nothing-NamesEnds

  of_file-NamesEnds : (e : Edge) → In e (nx.edges g) → NamesEnds (of_file nx g e)
  unfolding of_file
  of_file-NamesEnds e i =
      if_intro NamesEnds (e.kind == EdgeKind.defines_macro) _ _
        (each-NamesEnds (macro_dependent nx g) (nx.in_edges g e.dst)
          (λ u j. macro_dependent-NamesEnds u (incoming e.dst u j)))
        (if_intro NamesEnds _ _ _ (one-NamesEnds e.dst _ (dst-IsEnd e i)) nothing-NamesEnds)

  of_unit-NamesEnds : (e : Edge) → In e (nx.edges g) → NamesEnds (of_unit nx g e)
  unfolding of_unit
  of_unit-NamesEnds e i =
      if_intro NamesEnds _ _ _ (unit-NamesEnds e.src e.kind (src-IsEnd e i))
        (if_intro NamesEnds _ _ _ (one-NamesEnds e.src e.kind (src-IsEnd e i)) nothing-NamesEnds)

  implemented-NamesEnds : (e : Edge) → In e (nx.edges g) → NamesEnds (implemented nx g e)
  unfolding implemented
  implemented-NamesEnds e i =
      if_intro NamesEnds (e.kind == EdgeKind.implements) _ _ (one-NamesEnds e.dst _ (dst-IsEnd e i))
        nothing-NamesEnds

  impact_dependents-NamesEnds : (id : Text) → NamesEnds (impact_dependents nx g id)
  unfolding impact_dependents
  impact_dependents-NamesEnds id =
      if_intro NamesEnds (kind_of nx g id == NodeKind.file) _ _
        (both-NamesEnds (flat_map (includers nx g) (nx.in_edges g id)) _
          (each-NamesEnds (includers nx g) (nx.in_edges g id)
            (λ e i. includers-NamesEnds e (incoming id e i)))
          (each-NamesEnds (of_file nx g) (nx.out_edges g id)
            (λ e i. of_file-NamesEnds e (outgoing id e i))))
        (both-NamesEnds (flat_map (of_unit nx g) (nx.in_edges g id)) _
          (each-NamesEnds (of_unit nx g) (nx.in_edges g id)
            (λ e i. of_unit-NamesEnds e (incoming id e i)))
          (if_intro NamesEnds (kind_of nx g id == NodeKind.architecture) _ _
            (each-NamesEnds (implemented nx g) (nx.out_edges g id)
              (λ e i. implemented-NamesEnds e (outgoing id e i)))
            nothing-NamesEnds))

  pub dependents_ends :
      (id n : Text) → In (some n) (named (impact_dependents nx g id)) → In n (ends nx g)
  dependents_ends id n i =
      let (d, j, e) = In-map (λ (p : Dependent). p.0) (some n) (impact_dependents nx g id) i in
      (impact_dependents-NamesEnds id).end_of d n j (sym e)
