-- ===== src/Linker/Orphans/Exact.antt =====
-- `_gc_orphan_stubs` of src/hdl_kgraph/graph/builder.py removes exactly the stubs that no reference
-- holds.
use hdl_kgraph.Base.{
  ℕ, zero, suc, ◌+◌, ◌≤◌, ◌≡◌, refl, ◌↔◌, ◌⊎◌, inl, inr, true, false, not, some, List, [], ◌∷◌,
  Text, In, In-filter, In-reverse, contains, contains_iff, filter, length, length-reverse, reverse,
  nat_eq, list_eq, ==_iff, arith, Bool-cases, subst, sym,
}
use hdl_kgraph.Graph.{MultiDiGraph}
use hdl_kgraph.Linker.Orphans.{
  stubs, is_anchored, hosts, push, keep_hosted, work, anchored_stubs, without_kept, orphan_stubs,
}

module _ (nx : MultiDiGraph) (g : nx.Graph) where
  -- A stub that an edge other than a declaration holds, or that a declaration ties to such a stub.
  pub data Held : Text → Type 0 where
    anchored : {n : Text} → In n (stubs nx g) → is_anchored nx g n ≡ true → Held n
    hosted : {m n : Text} → Held m → In n (hosts nx g m) → In n (stubs nx g) → Held n

  In-push :
      (ns keep pending : List Text) (m : Text)
      → In m (push nx g ns keep pending)
        ↔ (In m pending ⊎ (In m ns × In m (stubs nx g) × (contains keep m ≡ false)))
  unfolding push
  In-push [] keep pending m = ground arith
  In-push (n ∷ ns) keep pending m = ground (
    arith,
    In-push ns keep pending m,
    In-push ns keep (n ∷ pending) m,
    contains_iff (stubs nx g) n,
  )

  length-push :
      (ns keep pending : List Text)
      → length (push nx g ns keep pending) ≤ length ns + length pending
  unfolding push
  length-push [] keep pending = omega arith
  length-push (n ∷ ns) keep pending =
      ground (arith, length-push ns keep pending, length-push ns keep (n ∷ pending))

  work_le : (ns keep : List Text) (c : Text) → work nx g ns (c ∷ keep) ≤ work nx g ns keep
  unfolding work contains
  work_le [] keep c = omega arith
  work_le (n ∷ ns) keep c = ground (arith, work_le ns keep c)

  work_less :
      (ns keep : List Text) (c : Text)
      → In c ns
      → contains keep c ≡ false
      → suc (length (hosts nx g c)) + work nx g ns (c ∷ keep) ≤ work nx g ns keep
  unfolding work contains
  work_less [] keep c h new = absurd h
  work_less (n ∷ ns) keep c (inl e) new = ground (arith, work_le ns keep c, ==_iff c n)
  work_less (n ∷ ns) keep c (inr i) new = ground (arith, work_less ns keep c i new)

  -- What holds at the head of the loop.
  record Inv (keep pending : List Text) : Type 0 where
    kept : (n : Text) → In n keep → Held n
    held : (n : Text) → In n pending → Held n
    first : (n : Text) → In n (stubs nx g) → is_anchored nx g n ≡ true → In n keep ⊎ In n pending
    closed :
        (m n : Text)
        → In m keep
        → In n (hosts nx g m)
        → In n (stubs nx g)
        → In n keep ⊎ In n pending

  Held-stub : (n : Text) → Held n → In n (stubs nx g)
  Held-stub n (Held.anchored i a) = i
  Held-stub n (Held.hosted h k i) = i

  skip-Inv :
      (n : Text) (keep pending : List Text) → In n keep → Inv keep (n ∷ pending) → Inv keep pending
  skip-Inv n keep pending k inv = record {
    kept = inv.kept;
    held = λ m i. inv.held m (inr i);
    first = λ m i a. elim (inv.first m i a) [
      | inl j ↦ inl j
      | inr (inl e) ↦ inl (subst (λ x. In x keep) (sym e) k)
      | inr (inr j) ↦ inr j
    ];
    closed = λ l m i h j. elim (inv.closed l m i h j) [
      | inl q ↦ inl q
      | inr (inl e) ↦ inl (subst (λ x. In x keep) (sym e) k)
      | inr (inr q) ↦ inr q
    ];
  }

  -- What is pending or kept before the step is so after it.
  moved :
      (n : Text) (keep pending : List Text) (m : Text)
      → In m keep ⊎ In m (n ∷ pending)
      → In m (n ∷ keep) ⊎ In m (push nx g (hosts nx g n) (n ∷ keep) pending)
  moved n keep pending m h = ground (arith, In-push (hosts nx g n) (n ∷ keep) pending m)

  keep-Inv :
      (n : Text) (keep pending : List Text)
      → Inv keep (n ∷ pending)
      → Inv (n ∷ keep) (push nx g (hosts nx g n) (n ∷ keep) pending)
  keep-Inv n keep pending inv = record {
    kept = λ m i. elim i [ inl e ↦ inv.held m (inl e) | inr j ↦ inv.kept m j ];
    held = λ m i. elim ((In-push (hosts nx g n) (n ∷ keep) pending m).0 i) [
      | inl j ↦ inv.held m (inr j)
      | inr (h, s, _) ↦ Held.hosted (inv.held n (inl refl)) h s
    ];
    first = λ m i a. moved n keep pending m (inv.first m i a);
    closed = λ l m i h j. elim i [
      | inr k ↦ moved n keep pending m (inv.closed l m k h j)
      | inl e ↦ elim (Bool-cases (contains (n ∷ keep) m)) [
        | inl old ↦ inl ((contains_iff (n ∷ keep) m).0 old)
        | inr new ↦ inr (
            (In-push (hosts nx g n) (n ∷ keep) pending m).1
              (inr (subst (λ x. In m (hosts nx g x)) e h, j, new)))
      ]
    ];
  }

  all_kept : (keep : List Text) → Inv keep [] → (n : Text) → Held n → In n keep
  all_kept keep inv n (Held.anchored i a) = elim (inv.first n i a) [ inl j ↦ j | inr q ↦ absurd q ]
  all_kept keep inv n (Held.hosted {m = m} h k i) =
      elim (inv.closed m n (all_kept keep inv m h) k i) [ inl j ↦ j | inr q ↦ absurd q ]

  keep_hosted_lem :
      (fuel : ℕ) (keep pending : List Text)
      → Inv keep pending
      → length pending + work nx g (stubs nx g) keep ≤ fuel
      → (ks : List Text) × (keep_hosted nx g fuel keep pending ≡ some ks)
        × ((n : Text) → In n ks ↔ Held n)
  unfolding keep_hosted
  keep_hosted_lem fuel keep [] inv h = (keep, refl, (λ n. (inv.kept n, all_kept keep inv n)))
  keep_hosted_lem zero keep (n ∷ pending) inv h = absurd (omega arith)
  keep_hosted_lem (suc fuel) keep (n ∷ pending) inv h = elim (Bool-cases (contains keep n)) [
    | inl old ↦ rw old (
        keep_hosted_lem fuel keep pending
          (skip-Inv n keep pending ((contains_iff keep n).0 old) inv) (omega arith))
    | inr new ↦ rw new (
        keep_hosted_lem fuel (n ∷ keep) (push nx g (hosts nx g n) (n ∷ keep) pending)
          (keep-Inv n keep pending inv)
          (omega (
            arith,
            length-push (hosts nx g n) (n ∷ keep) pending,
            work_less (stubs nx g) keep n (Held-stub n (inv.held n (inl refl))) new,
          )))
  ]

  start-Inv : Inv [] (reverse (anchored_stubs nx g))
  unfolding anchored_stubs
  start-Inv =
      let p = is_anchored nx g in
      let from = anchored_stubs nx g in
      record {
        kept = λ n i. absurd i;
        held = λ n i.
            let (s, a) = (In-filter p n (stubs nx g)).0 ((In-reverse n from).0 i) in
            Held.anchored s a;
        first = λ n i a. inr ((In-reverse n from).1 ((In-filter p n (stubs nx g)).1 (i, a)));
        closed = λ m n i h j. absurd i;
      }

  -- The loop over the stack is done within its fuel, and what is removed is exactly the stubs that
  -- neither carry an edge other than a declaration nor are tied to such a stub by a chain of
  -- declarations between stubs, in either direction.
  pub orphan_stubs_lem :
      (n : Text)
      → (gone : List Text) × (orphan_stubs nx g ≡ some gone)
        × (In n gone ↔ (In n (stubs nx g) × (¬ Held n)))
  unfolding orphan_stubs without_kept
  orphan_stubs_lem n =
      let from = anchored_stubs nx g in
      let (keep, e, exact) =
        keep_hosted_lem (length from + work nx g (stubs nx g) []) [] (reverse from) start-Inv
          (omega (arith, length-reverse from)) in
      let p = λ (n : Text). not (contains keep n) in
      (
        filter p (stubs nx g),
        rw e refl,
        (
          (λ i.
              let (s, q) = (In-filter p n (stubs nx g)).0 i in
              (s, (λ h. absurd (ground (arith, contains_iff keep n, (exact n).1 h))))),
          (λ (s, free). (In-filter p n (stubs nx g)).1 (
            s,
            elim (Bool-cases (contains keep n)) [
              | inl old ↦ absurd (free ((exact n).0 ((contains_iff keep n).0 old)))
              | inr new ↦ ground arith
            ],
          )),
        ),
      )
