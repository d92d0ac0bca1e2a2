-- ===== src/Climb/Ends.antt =====
-- The climb ends, also where the parents form a cycle, and finds the nearest unit.
use hdl_kgraph.Base.{
  missing, missing_less, missing-le-length, ==_refl, ℕ, zero, suc, ◌<◌, true, false, ◌≡◌, refl, inl,
  inr, Option, none, some, List, [], ◌∷◌, Text, contains, nat_eq, list_eq, length, arith,
  Bool-cases, Option-cases, In, ap, subst, contains_iff, sym, ◌↔◌, Bool,
}
use hdl_kgraph.Climb.{climb, Climbs, nearest, found}

-- A node that is marked is seen, and so is what was.
marked : (seen : List Text) (c k : Text) → contains seen k ≡ true → contains (c ∷ seen) k ≡ true
unfolding contains
marked seen c k h = ground arith

marked_self : (seen : List Text) (c : Text) → contains (c ∷ seen) c ≡ true
unfolding contains
marked_self seen c = ground (arith, ==_refl c)

-- Every node that has a parent stands in `ks`.
module _ (is_unit : Text → Bool) (parent : Text → Option Text) (ks : List Text)
    (covers : (c p : Text) → parent c ≡ some p → In c ks) where
  -- The loop is done within the fuel.
  abbrev Done : Option (Option Text) → Type 0
  Done o = (r : Option Text) × (o ≡ some r)

  climb-Done :
      (fuel : ℕ) (seen : List Text) (o : Option Text)
      → missing ks seen < fuel
      → Done (climb is_unit parent fuel seen o)
  unfolding climb
  climb-Done fuel seen none h = (none, refl)
  climb-Done zero seen (some c) h = absurd (omega arith)
  climb-Done (suc fuel) seen (some c) h = elim (Bool-cases (contains seen c)) [
    | inl e ↦ rw e (none, refl)
    | inr e ↦ rw e (elim (Bool-cases (is_unit c)) [
      | inl u ↦ rw u (some c, refl)
      | inr u ↦ rw u (elim (Option-cases (parent c)) [
        | inl q ↦ rw q (none, refl)
        | inr (p, q) ↦ climb-Done fuel (c ∷ seen) (parent c) (
            ground (
              arith,
              missing_less seen (c ∷ seen) (marked seen c) ks c (covers c p q) e
                  (marked_self seen c),
            ))
      ])
    ])
  ]

  Climbs-unit :
      (unit : Text) (n : ℕ) (id : Text) → Climbs is_unit parent unit n id → is_unit unit ≡ true
  Climbs-unit unit zero id (Climbs.here u) = u
  Climbs-unit unit (suc n) id (Climbs.up u p c) = Climbs-unit unit n _ c

  -- The number of steps is the only one.
  Climbs-only :
      (unit : Text) (n m : ℕ) (id : Text)
      → Climbs is_unit parent unit n id
      → Climbs is_unit parent unit m id
      → n ≡ m
  Climbs-only unit zero zero id c d = refl
  Climbs-only unit zero (suc m) id (Climbs.here u) (Climbs.up v q d) = absurd (ground arith)
  Climbs-only unit (suc n) zero id (Climbs.up u p c) (Climbs.here v) = absurd (ground arith)
  Climbs-only unit (suc n) (suc m) id (Climbs.up {above = a} u p c) (Climbs.up {above = b} v q d) =
      let same : a ≡ b = ground arith in
      ap suc (Climbs-only unit n m b (subst (λ x. Climbs is_unit parent unit n x) same c) d)

  sound :
      (fuel : ℕ) (seen : List Text) (o : Option Text) (unit : Text)
      → climb is_unit parent fuel seen o ≡ some (some unit)
      → (n : ℕ) × (c : Text) × (o ≡ some c) × Climbs is_unit parent unit n c
  unfolding climb
  sound fuel seen none unit h = absurd (ground arith)
  sound zero seen (some c) unit h = absurd (ground arith)
  sound (suc fuel) seen (some c) unit h = elim (Bool-cases (contains seen c)) [
    | inl e ↦ absurd (ground arith)
    | inr e ↦ elim (Bool-cases (is_unit c)) [
      | inl u ↦
          let same : c ≡ unit = ground arith in
          (0, c, refl, subst (λ x. Climbs is_unit parent x 0 c) same (Climbs.here u))
      | inr u ↦
          let (n, p, q, above) = sound fuel (c ∷ seen) (parent c) unit (ground arith) in
          (suc n, c, refl, Climbs.up u q above)
    ]
  ]

  -- What is seen stands below the node.
  abbrev Below : Text → ℕ → List Text → Type 0
  Below unit n seen = (x : Text) → In x seen → (m : ℕ) × Climbs is_unit parent unit m x × (n < m)

  not_seen :
      (unit : Text) (n : ℕ) (id : Text) (seen : List Text)
      → Climbs is_unit parent unit n id
      → Below unit n seen
      → contains seen id ≡ false
  not_seen unit n id seen c below = elim (Bool-cases (contains seen id)) [
    | inr e ↦ e
    | inl e ↦
        let (m, d, less) = below id ((contains_iff seen id).0 e) in
        absurd (omega (arith, Climbs-only unit n m id c d))
  ]

  complete :
      (fuel : ℕ) (seen : List Text) (unit : Text) (n : ℕ) (id : Text) (r : Option Text)
      → Climbs is_unit parent unit n id
      → Below unit n seen
      → climb is_unit parent fuel seen (some id) ≡ some r
      → r ≡ some unit
  unfolding climb
  complete zero seen unit n id r c below h = absurd (ground arith)
  complete (suc fuel) seen unit zero id r (Climbs.here u) below h =
      ground (arith, not_seen unit 0 unit seen (Climbs.here u) below)
  complete (suc fuel) seen unit (suc n) id r (Climbs.up {above = a} u p c) below h =
      complete fuel (id ∷ seen) unit n a r c
        (λ x i. elim i [
          | inl e ↦ (
            suc n,
            subst (λ y. Climbs is_unit parent unit (suc n) y) (sym e) (Climbs.up u p c),
            omega arith,
          )
          | inr j ↦ let (m, d, less) = below x j in (m, d, omega arith)
        ])
        (ground (arith, not_seen unit (suc n) id seen (Climbs.up u p c) below))

  -- Whatever the parents, also where they form a cycle, the loop is done before the fuel runs out.
  pub climb-ends :
      (node_id : Text)
      → (r : Option Text) × (climb is_unit parent (suc (suc (length ks))) [] (some node_id)
          ≡ some r)
  climb-ends node_id =
      climb-Done (suc (suc (length ks))) [] (some node_id) (omega (arith, missing-le-length ks []))

  pub nearest_lem :
      (node_id unit : Text)
      → (nearest is_unit parent (length ks) node_id ≡ some unit)
        ↔ ((n : ℕ) × Climbs is_unit parent unit n node_id)
  unfolding nearest found
  nearest_lem node_id unit =
      let fuel = suc (suc (length ks)) in
      let (r, e) = climb-ends node_id in
      (
        (λ h.
            let (n, c, q, d) = sound fuel [] (some node_id) unit (ground arith) in
            (n, subst (λ x. Climbs is_unit parent unit n x) (ground arith) d)),
        (λ (n, c). ground (arith, complete fuel [] unit n node_id r c (λ x i. absurd i) e)),
      )

  -- What is found is a unit.
  pub nearest_unit :
      (node_id unit : Text)
      → nearest is_unit parent (length ks) node_id ≡ some unit
      → is_unit unit ≡ true
  nearest_unit node_id unit h =
      let (n, c) = (nearest_lem node_id unit).0 h in Climbs-unit unit n node_id c
