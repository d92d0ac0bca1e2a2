-- ===== src/Analysis/Impact/Waves.antt =====
-- One wave of the impact radius of src/hdl_kgraph/graph/analysis.py: what it adds.
use hdl_kgraph.Base.{
  ℕ, ◌≡◌, refl, ◌↔◌, ◌⊎◌, inl, true, false, Option, none, some, List, [], ◌∷◌, ◌++◌, map, Text, In,
  In-append, contains, nat_eq, list_eq, ==_iff, arith, flat_map, ap,
}
use hdl_kgraph.Graph.{MultiDiGraph}
use hdl_kgraph.Analysis.Impact.{
  ImpactRecord, Dependent, Wave, note, note_all, sweep, impact_dependents, record_at,
}

abbrev pub ids : List ImpactRecord → List Text
ids records = map (λ r. r.node_id) records

-- The nodes that dependents name.
abbrev pub named : List Dependent → List (Option Text)
named ds = map (λ d. d.0) ds

In-ids :
    (rs : List ImpactRecord) (r : ImpactRecord) (n : Text)
    → In n (ids (rs ++ r ∷ [])) ↔ (In n (ids rs) ⊎ (n ≡ r.node_id))
In-ids [] r n = ground arith
In-ids (x ∷ rs) r n = ground (arith, In-ids rs r n)

module _ (nx : MultiDiGraph) (g : nx.Graph) (depth : ℕ) where
  note_all-append :
      (xs ys : List Dependent) (w : Wave)
      → note_all nx g depth (xs ++ ys) w ≡ note_all nx g depth ys (note_all nx g depth xs w)
  unfolding note_all
  note_all-append [] ys w = refl
  note_all-append (x ∷ xs) ys w = note_all-append xs ys (note nx g depth x w)

  pub sweep_flat :
      (ns : List Text) (w : Wave)
      → sweep nx g depth ns w ≡ note_all nx g depth (flat_map (impact_dependents nx g) ns) w
  unfolding sweep note_all
  sweep_flat [] w = refl
  sweep_flat (n ∷ ns) w =
      rw (note_all-append (impact_dependents nx g n) (flat_map (impact_dependents nx g) ns) w)
        (sweep_flat ns (note_all nx g depth (impact_dependents nx g n) w))

  -- What is visited afterwards: what was, and what a dependent names.
  pub visited-note_all :
      (ds : List Dependent) (w : Wave) (n : Text)
      → (contains (note_all nx g depth ds w).visited n ≡ true)
        ↔ ((contains w.visited n ≡ true) ⊎ In (some n) (named ds))
  unfolding note_all note contains
  visited-note_all [] w n = ground arith
  visited-note_all ((none, via) ∷ ds) w n = ground (arith, visited-note_all ds w n)
  visited-note_all ((some d, via) ∷ ds) w n =
      let noted = note nx g depth (some d, via) w in
      ground (arith, visited-note_all ds noted n, ==_iff n d)

  -- The next frontier has what is newly visited.
  pub next-note_all :
      (ds : List Dependent) (w : Wave) (n : Text)
      → In n (note_all nx g depth ds w).next_frontier ↔ (
          In n w.next_frontier
          ⊎ ((contains (note_all nx g depth ds w).visited n ≡ true)
              × (contains w.visited n ≡ false)))
  unfolding note_all note contains
  next-note_all [] w n = ground arith
  next-note_all ((none, via) ∷ ds) w n = ground (arith, next-note_all ds w n)
  next-note_all ((some d, via) ∷ ds) w n =
      let noted = note nx g depth (some d, via) w in
      ground (
        arith,
        next-note_all ds noted n,
        visited-note_all ds noted n,
        In-append n w.next_frontier (d ∷ []),
        ==_iff n d,
      )

  -- And so have the records, each with the depth of the wave.
  pub records-note_all :
      (ds : List Dependent) (w : Wave) (n : Text)
      → In n (ids (note_all nx g depth ds w).records) ↔ (
          In n (ids w.records)
          ⊎ ((contains (note_all nx g depth ds w).visited n ≡ true)
              × (contains w.visited n ≡ false)))
  unfolding note_all note contains record_at
  records-note_all [] w n = ground arith
  records-note_all ((none, via) ∷ ds) w n = ground (arith, records-note_all ds w n)
  records-note_all ((some d, via) ∷ ds) w n =
      let noted = note nx g depth (some d, via) w in
      ground (
        arith,
        records-note_all ds noted n,
        visited-note_all ds noted n,
        In-ids w.records (record_at nx g depth via d) n,
        ==_iff n d,
      )

  pub depth-note_all :
      (ds : List Dependent) (w : Wave) (r : ImpactRecord)
      → In r (note_all nx g depth ds w).records
      → In r w.records
        ⊎ ((r.depth ≡ depth)
            × (contains (note_all nx g depth ds w).visited r.node_id ≡ true)
            × (contains w.visited r.node_id ≡ false))
  unfolding note_all note contains record_at
  depth-note_all [] w r h = inl h
  depth-note_all ((none, via) ∷ ds) w r h = ground (arith, depth-note_all ds w r)
  depth-note_all ((some d, via) ∷ ds) w r h =
      let noted = note nx g depth (some d, via) w in
      ground (
        arith,
        depth-note_all ds noted r,
        visited-note_all ds noted r.node_id,
        In-append r w.records (record_at nx g depth via d ∷ []),
        ==_iff r.node_id d,
        ap (λ (x : ImpactRecord). x.node_id),
        ap (λ (x : ImpactRecord). x.depth),
      )
