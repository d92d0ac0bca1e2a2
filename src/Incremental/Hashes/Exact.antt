-- ===== src/Incremental/Hashes/Exact.antt =====
-- `diff_hashes` of src/hdl_kgraph/incremental.py: the three lists say exactly where the two mappings
-- differ.
use hdl_kgraph.Base.{
  ◌≡◌, ◌≢◌, ◌↔◌, inl, inr, refl, true, false, Option, none, some, Text, Dict, keys, lookup, has_key,
  has_key_iff, lookup-eq-none, In, In-sorted, In-filter, In-filter_map, In-filter_map_of, IsDict,
  In-iff-lookup, ==_iff, arith, nat_eq, list_eq, filter, filter_map, not, Option-cases, ◌==◌, subst,
  List-cases, Bool-cases, ap,
}
use hdl_kgraph.Incremental.Hashes.{is_change, differs, changed_path, diff_hashes}

-- A path stands in both mappings with different hashes.
abbrev pub Changed : Dict Text Text → Dict Text Text → Text → Type 0
Changed stored current p =
    (s : Text) × (h : Text) × (lookup stored p ≡ some s) × (lookup current p ≡ some h) × (s ≢ h)

module _ (stored current : Dict Text Text) (p : Text) where
  differs→ :
      (h : Text) → differs stored (p, h) ≡ true → (s : Text) × (lookup stored p ≡ some s) × (s ≢ h)
  unfolding differs
  differs→ h e = elim (Option-cases (lookup stored p)) [
    | inl q ↦ absurd (ground arith)
    | inr (s, q) ↦ (s, q, ground (arith, ==_iff s h))
  ]

  →differs : (h s : Text) → lookup stored p ≡ some s → s ≢ h → differs stored (p, h) ≡ true
  unfolding differs
  →differs h s q n = ground (arith, ==_iff s h)

  pub added_iff :
      In p (diff_hashes stored current).added
      ↔ ((lookup stored p ≡ none) × (lookup current p ≢ none))
  unfolding diff_hashes
  added_iff = ground (
    arith,
    In-sorted p (filter (λ q. not (has_key stored q)) (keys current)),
    In-filter (λ q. not (has_key stored q)) p (keys current),
    has_key_iff current p,
    lookup-eq-none stored p,
    lookup-eq-none current p,
  )

  pub removed_iff :
      In p (diff_hashes stored current).removed
      ↔ ((lookup stored p ≢ none) × (lookup current p ≡ none))
  unfolding diff_hashes
  removed_iff = ground (
    arith,
    In-sorted p (filter (λ q. not (has_key current q)) (keys stored)),
    In-filter (λ q. not (has_key current q)) p (keys stored),
    has_key_iff stored p,
    lookup-eq-none stored p,
    lookup-eq-none current p,
  )

  changed_path-eq-some :
      (q h : Text) → changed_path stored (q, h) ≡ some p → (q ≡ p) × (differs stored (q, h) ≡ true)
  changed_path-eq-some q h e = ground arith

  changed→ : IsDict current → In p (diff_hashes stored current).changed → Changed stored current p
  unfolding diff_hashes
  changed→ dict m =
      let found = (In-sorted p (filter_map (changed_path stored) current)).0 m in
      let (x, i, e) = In-filter_map (changed_path stored) p current found in
      let (same, d) = changed_path-eq-some x.0 x.1 e in
      let (s, ls, n) = differs→ x.1 (subst (λ (q : Text). differs stored (q, x.1) ≡ true) same d) in
      (
        s,
        x.1,
        ls,
        (In-iff-lookup current p x.1 dict).0 (subst (λ (q : Text). In (q, x.1) current) same i),
        n,
      )

  →changed : IsDict current → Changed stored current p → In p (diff_hashes stored current).changed
  unfolding diff_hashes
  →changed dict (s, h, ls, lc, n) = (In-sorted p (filter_map (changed_path stored) current)).1 (
      In-filter_map_of (changed_path stored) (p, h) p current
        ((In-iff-lookup current p h dict).1 lc) (rw (→differs h s ls n)))

module _ (stored current : Dict Text Text) where
  -- Of the dicts that stand for the stored and the current tree: a path is listed as changed exactly
  -- when both have it with different hashes, as added exactly when only the current one has it, and
  -- as removed exactly when only the stored one has it.
  pub diff_hashes_exact :
      IsDict current
      → (p : Text)
      → (In p (diff_hashes stored current).changed ↔ Changed stored current p)
        × (In p (diff_hashes stored current).added
            ↔ ((lookup stored p ≡ none) × (lookup current p ≢ none)))
        × (In p (diff_hashes stored current).removed
            ↔ ((lookup stored p ≢ none) × (lookup current p ≡ none)))
  diff_hashes_exact dict p = (
    (changed→ stored current p dict, →changed stored current p dict),
    added_iff stored current p,
    removed_iff stored current p,
  )

  nothing_listed :
      (p : Text)
      → is_change (diff_hashes stored current) ≡ false
      → (¬ In p (diff_hashes stored current).changed)
        × (¬ In p (diff_hashes stored current).added)
        × (¬ In p (diff_hashes stored current).removed)
  unfolding is_change
  nothing_listed p h = ground (
    arith,
    List-cases (diff_hashes stored current).changed,
    List-cases (diff_hashes stored current).added,
    List-cases (diff_hashes stored current).removed,
  )

  same_lookup :
      (p : Text) (s c : Option Text)
      → lookup stored p ≡ s
      → lookup current p ≡ c
      → ¬ Changed stored current p
      → ¬ ((lookup stored p ≡ none) × (lookup current p ≢ none))
      → ¬ ((lookup stored p ≢ none) × (lookup current p ≡ none))
      → s ≡ c
  same_lookup p none none ls lc nc na nr = refl
  same_lookup p none (some h) ls lc nc na nr = absurd (na (ls, λ e. cc))
  same_lookup p (some s) none ls lc nc na nr = absurd (nr ((λ e. cc), lc))
  same_lookup p (some s) (some h) ls lc nc na nr = elim (Bool-cases (s == h)) [
    | inl e ↦ ap some ((==_iff s h).0 e)
    | inr n ↦ absurd (nc (s, h, ls, lc, λ e. ground (arith, ==_iff s h)))
  ]

  -- Of two dicts: if `diff_hashes` gives an empty change set, they agree at every path.
  pub diff_hashes_empty :
      IsDict current
      → is_change (diff_hashes stored current) ≡ false
      → (p : Text) → lookup stored p ≡ lookup current p
  diff_hashes_empty dict h p =
      let (nc, na, nr) = nothing_listed p h in
      let (c, a, r) = diff_hashes_exact dict p in
      same_lookup p (lookup stored p) (lookup current p) refl refl (λ x. nc (c.1 x))
        (λ x. na (a.1 x)) (λ x. nr (r.1 x))
