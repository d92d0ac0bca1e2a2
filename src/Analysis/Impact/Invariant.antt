-- ===== src/Analysis/Impact/Invariant.antt =====
-- What every wave of the impact radius of src/hdl_kgraph/graph/analysis.py keeps, and how the work left
-- falls.
use hdl_kgraph.Base.{
  ℕ, suc, ◌<◌, ◌≡◌, ◌↔◌, ◌⊎◌, inl, inr, true, false, some, List, [], Text, In, In-map, In-map_of,
  In-flat_map, In-flat_map_of, contains, contains_iff, nat_eq, list_eq, arith, flat_map, sym, subst,
  missing, missing_less, Bool-cases,
}
use hdl_kgraph.Graph.{MultiDiGraph, Laws}
use hdl_kgraph.Analysis.Impact.{ImpactRecord, Dependent, Wave, sweep, impact_dependents, ends}
use hdl_kgraph.Analysis.Impact.Waves.{
  ids, named, sweep_flat, visited-note_all, next-note_all, records-note_all, depth-note_all,
}
use hdl_kgraph.Analysis.Impact.Ends.{dependents_ends}

module _ (nx : MultiDiGraph) (laws : Laws nx) (g : nx.Graph) (seeds : List Text) where
  -- The second depends on the first.
  abbrev pub DependsOn : Text → Text → Type 0
  DependsOn m n = In (some n) (named (impact_dependents nx g m))

  -- A chain of so many dependents leads from a seed to the node.
  pub data Reached : ℕ → Text → Type 0 where
    seed : {n : Text} → In n seeds → Reached 0 n
    along : {d : ℕ} {m n : Text} → Reached d m → DependsOn m n → Reached (suc d) n

  -- What holds at the head of the loop.
  pub record Inv (depth : ℕ) (frontier visited : List Text) (records : List ImpactRecord)
      : Type 0 where
    pub seeded : (n : Text) → In n seeds → contains visited n ≡ true
    pub in_front : (n : Text) → In n frontier → contains visited n ≡ true
    pub split : (n : Text) → contains visited n ≡ true → In n seeds ⊎ In n (ids records)
    pub recorded :
        (n : Text) → In n (ids records) → (contains visited n ≡ true) × (contains seeds n ≡ false)
    pub reached : (n : Text) → In n frontier → Reached depth n
    pub sound : (r : ImpactRecord) → In r records → Reached r.depth r.node_id
    pub closed :
        (m n : Text)
        → contains visited m ≡ true
        → DependsOn m n
        → In m frontier ⊎ (contains visited n ≡ true)

  abbrev pub wave : ℕ → List Text → List Text → List ImpactRecord → Wave
  wave depth frontier visited records =
      sweep nx g (suc depth) frontier
        (record { visited = visited; records = records; next_frontier = [] })

  module _ (depth : ℕ) (frontier visited : List Text) (records : List ImpactRecord) where
    abbrev start : Wave
    start = record { visited = visited; records = records; next_frontier = [] }

    abbrev offered : List Dependent
    offered = flat_map (impact_dependents nx g) frontier

    -- What is named by a dependent of the frontier.
    In-offered :
        (n : Text) → In (some n) (named offered) → (m : Text) × In m frontier × DependsOn m n
    In-offered n i =
        let (d, j, e) = In-map (λ (p : Dependent). p.0) (some n) offered i in
        let (m, k, l) = In-flat_map (impact_dependents nx g) d frontier j in
        (
          m,
          k,
          subst (λ o. In o (named (impact_dependents nx g m))) (sym e)
              (In-map_of (λ (p : Dependent). p.0) d (impact_dependents nx g m) l),
        )

    In-offered_of : (m n : Text) → In m frontier → DependsOn m n → In (some n) (named offered)
    In-offered_of m n i k =
        let (d, j, e) = In-map (λ (p : Dependent). p.0) (some n) (impact_dependents nx g m) k in
        subst (λ o. In o (named offered)) (sym e)
          (In-map_of (λ (p : Dependent). p.0) d offered
            (In-flat_map_of (impact_dependents nx g) m d frontier i j))

    visited_iff :
        (n : Text)
        → (contains (wave depth frontier visited records).visited n ≡ true)
          ↔ ((contains visited n ≡ true) ⊎ In (some n) (named offered))
    visited_iff n =
        rw (sweep_flat nx g (suc depth) frontier start)
          (visited-note_all nx g (suc depth) offered start n)

    next_iff :
        (n : Text)
        → In n (wave depth frontier visited records).next_frontier ↔ (
            (contains (wave depth frontier visited records).visited n ≡ true)
            × (contains visited n ≡ false))
    next_iff n =
        rw (sweep_flat nx g (suc depth) frontier start)
          (ground (arith, next-note_all nx g (suc depth) offered start n))

    records_iff :
        (n : Text)
        → In n (ids (wave depth frontier visited records).records) ↔ (
            In n (ids records)
            ⊎ ((contains (wave depth frontier visited records).visited n ≡ true)
                × (contains visited n ≡ false)))
    records_iff n =
        rw (sweep_flat nx g (suc depth) frontier start)
          (records-note_all nx g (suc depth) offered start n)

    record_depth :
        (r : ImpactRecord)
        → In r (wave depth frontier visited records).records
        → In r records
          ⊎ ((r.depth ≡ suc depth)
              × (contains (wave depth frontier visited records).visited r.node_id ≡ true)
              × (contains visited r.node_id ≡ false))
    record_depth =
        rw (sweep_flat nx g (suc depth) frontier start)
          (depth-note_all nx g (suc depth) offered start)

    module _ (inv : Inv depth frontier visited records) where
      -- What is new is one step from the frontier.
      new-Reached :
          (n : Text)
          → contains (wave depth frontier visited records).visited n ≡ true
          → contains visited n ≡ false
          → Reached (suc depth) n
      new-Reached n v f = elim ((visited_iff n).0 v) [
        | inl old ↦ absurd (ground arith)
        | inr i ↦ let (m, j, k) = In-offered n i in Reached.along (inv.reached m j) k
      ]

      pub next-Inv :
          let w = wave depth frontier visited records in
          Inv (suc depth) w.next_frontier w.visited w.records
      next-Inv = record {
        seeded = λ n i. (visited_iff n).1 (inl (inv.seeded n i));
        in_front = λ n i. ((next_iff n).0 i).0;
        split = λ n v. elim (Bool-cases (contains visited n)) [
          | inl old ↦ elim (inv.split n old) [
            | inl i ↦ inl i
            | inr i ↦ inr ((records_iff n).1 (inl i))
          ]
          | inr new ↦ inr ((records_iff n).1 (inr (v, new)))
        ];
        recorded = λ n i. elim ((records_iff n).0 i) [
          | inl old ↦ let (v, s) = inv.recorded n old in ((visited_iff n).1 (inl v), s)
          | inr (v, new) ↦ (v, ground (arith, inv.seeded n, contains_iff seeds n))
        ];
        reached = λ n i. let (v, new) = (next_iff n).0 i in new-Reached n v new;
        sound = λ r i. elim (record_depth r i) [
          | inl old ↦ inv.sound r old
          | inr (e, v, new) ↦ subst (λ d. Reached d r.node_id) (sym e) (new-Reached r.node_id v new)
        ];
        closed = λ m n v k. elim (Bool-cases (contains visited m)) [
          | inr new ↦ inl ((next_iff m).1 (v, new))
          | inl old ↦ elim (inv.closed m n old k) [
            | inl i ↦ inr ((visited_iff n).1 (inr (In-offered_of m n i k)))
            | inr w ↦ inr ((visited_iff n).1 (inl w))
          ]
        ];
      }

      -- A wave that finds something leaves fewer ends unvisited.
      pub progress :
          (x : Text)
          → In x (wave depth frontier visited records).next_frontier
          → missing (ends nx g) (wave depth frontier visited records).visited
            < missing (ends nx g) visited
      progress x i =
          let (v, new) = (next_iff x).0 i in
          missing_less visited (wave depth frontier visited records).visited
            (λ k old. (visited_iff k).1 (inl old)) (ends nx g) x
            (elim ((visited_iff x).0 v) [
              | inl old ↦ absurd (ground arith)
              | inr j ↦ let (m, _, k) = In-offered x j in dependents_ends nx laws g m x k
            ])
            new v
