-- ===== src/Analysis/Impact/Exact.antt =====
-- The impact radius of src/hdl_kgraph/graph/analysis.py finds exactly what a change reaches.
use hdl_kgraph.Base.{
  ℕ, zero, suc, ◌<◌, ◌≡◌, refl, ◌↔◌, inl, inr, true, false, some, List, [], ◌∷◌, Text, In, In-map,
  In-map_of, In-sort_by, contains, contains_iff, nat_eq, list_eq, arith, length, sym, subst,
  missing, missing-le-length, All, All-of, List-cases, sort_by,
}
use hdl_kgraph.Graph.{MultiDiGraph, Laws}
use hdl_kgraph.Analysis.Impact.{
  ImpactRecord, ends, waves, impact_radius, sorted_records, record_leb,
}
use hdl_kgraph.Analysis.Impact.Waves.{ids}
use hdl_kgraph.Analysis.Impact.Invariant.{Reached, Inv, wave, next-Inv, progress}

module _ (nx : MultiDiGraph) (laws : Laws nx) (g : nx.Graph) (seeds : List Text) where
  -- With nothing left to expand, everything that is reached is visited.
  all_visited :
      (depth : ℕ) (visited : List Text) (records : List ImpactRecord)
      → Inv nx laws g seeds depth [] visited records
      → (d : ℕ) (n : Text) → Reached nx laws g seeds d n
      → contains visited n ≡ true
  all_visited depth visited records inv zero n (Reached.seed i) = inv.seeded n i
  all_visited depth visited records inv (suc d) n (Reached.along {m = m} r k) =
      elim (inv.closed m n (all_visited depth visited records inv d m r) k) [
        | inl i ↦ absurd i
        | inr v ↦ v
      ]

  -- The records are the nodes that a chain reaches and that are no seeds, each at the length of a chain.
  abbrev pub Radius : List ImpactRecord → Type 0
  Radius records =
      ((n : Text)
        → In n (ids records)
          ↔ (((d : ℕ) × Reached nx laws g seeds d n) × (contains seeds n ≡ false)))
      × ((r : ImpactRecord) → In r records → Reached nx laws g seeds r.depth r.node_id)

  done-Radius :
      (depth : ℕ) (visited : List Text) (records : List ImpactRecord)
      → Inv nx laws g seeds depth [] visited records
      → Radius records
  done-Radius depth visited records inv = (
    (λ n. (
      (λ i.
          let (r, j, e) = In-map (λ (r : ImpactRecord). r.node_id) n records i in
          (
            (r.depth, subst (Reached nx laws g seeds r.depth) (sym e) (inv.sound r j)),
            (inv.recorded n i).1,
          )),
      (λ ((d, c), f). elim (inv.split n (all_visited depth visited records inv d n c)) [
        | inl i ↦ absurd (ground (arith, contains_iff seeds n))
        | inr i ↦ i
      ]),
    )),
    inv.sound,
  )

  waves-Radius :
      (fuel depth : ℕ) (frontier visited : List Text) (records : List ImpactRecord)
      → Inv nx laws g seeds depth frontier visited records
      → missing (ends nx g) visited < fuel
      → (rs : List ImpactRecord) × (waves nx g fuel 0 depth frontier visited records ≡ some rs)
        × Radius rs
  unfolding waves
  waves-Radius fuel depth [] visited records inv h =
      (records, refl, done-Radius depth visited records inv)
  waves-Radius zero depth (n ∷ ns) visited records inv h = absurd (omega arith)
  waves-Radius (suc fuel) depth (n ∷ ns) visited records inv h =
      let w = wave nx laws g seeds depth (n ∷ ns) visited records in
      let after = next-Inv nx laws g seeds depth (n ∷ ns) visited records inv in
      elim (List-cases w.next_frontier) [
        | inl e ↦
            let last : Inv nx laws g seeds (suc depth) [] w.visited w.records =
              subst (λ f. Inv nx laws g seeds (suc depth) f w.visited w.records) e after in
            (w.records, rw e refl, done-Radius (suc depth) w.visited w.records last)
        | inr (x, rest, e) ↦
            let found : In x w.next_frontier = rw e (inl refl) in
            waves-Radius fuel (suc depth) w.next_frontier w.visited w.records after
              (omega (arith, progress nx laws g seeds depth (n ∷ ns) visited records inv x found))
      ]

  start-Inv : Inv nx laws g seeds 0 seeds seeds []
  start-Inv = record {
    seeded = λ n i. (contains_iff seeds n).1 i;
    in_front = λ n i. (contains_iff seeds n).1 i;
    split = λ n v. inl ((contains_iff seeds n).0 v);
    recorded = λ n i. absurd i;
    reached = λ n i. Reached.seed i;
    sound = λ r i. absurd i;
    closed = λ m n v k. inl ((contains_iff seeds m).0 v);
  }

  -- In a graph that meets the laws, without a limit of depth, the radius is computed within its fuel, whatever the cycles of the graph:
  -- the records name exactly the nodes, other than the seeds, that a chain of dependents reaches from a
  -- seed, and the depth of each record is the length of such a chain.
  pub impact_radius_lem :
      (n : Text)
      → (rs : List ImpactRecord) × (impact_radius nx g seeds 0 ≡ some rs)
        × (In n (ids rs) ↔ (((d : ℕ) × Reached nx laws g seeds d n) × (contains seeds n ≡ false)))
        × All (λ r. Reached nx laws g seeds r.depth r.node_id) rs
  unfolding impact_radius sorted_records
  impact_radius_lem n =
      let (found, e, (exact, deep)) =
        waves-Radius (suc (length (ends nx g))) 0 seeds seeds [] start-Inv
          (omega (arith, missing-le-length (ends nx g) seeds)) in
      let rs = sort_by record_leb found in
      (
        rs,
        rw e refl,
        (
          (λ i.
              let (r, j, q) = In-map (λ (r : ImpactRecord). r.node_id) n rs i in
              (exact n).0 (
                subst (λ m. In m (ids found)) (sym q)
                  (In-map_of (λ (r : ImpactRecord). r.node_id) r found
                    ((In-sort_by record_leb r found).0 j)))),
          (λ k.
              let (r, j, q) = In-map (λ (r : ImpactRecord). r.node_id) n found ((exact n).1 k) in
              subst (λ m. In m (ids rs)) (sym q)
                (In-map_of (λ (r : ImpactRecord). r.node_id) r rs
                  ((In-sort_by record_leb r found).1 j))),
        ),
        All-of (λ r. Reached nx laws g seeds r.depth r.node_id) rs
            (λ r i. deep r ((In-sort_by record_leb r found).0 i)),
      )
