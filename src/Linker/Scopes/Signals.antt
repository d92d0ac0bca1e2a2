-- ===== src/Linker/Scopes/Signals.antt =====
-- The confidence contract of `_scoped_signal_target` in src/hdl_kgraph/graph/builder.py.
use hdl_kgraph.Base.{
  ◌≡◌, ◌↔◌, refl, ◌⊎◌, inl, inr, not, List, [], ◌∷◌, map, In, In-filter, In-map_of, All, filter,
  codes, Bool, true, false, Bool-cases, arith, ==_iff,
}
use hdl_kgraph.Schema.{
  Node, NodeKind, node_kind_eq, get_attr, truthy, confidence_resolved, confidence_ambiguous,
}
use hdl_kgraph.Linker.Targets.{Scored}
use hdl_kgraph.Linker.Scopes.{signal_targets, by_selected, by_ports, selected_or, is_port}

-- The declaration stands in a branch that nothing decided.
abbrev pub is_conditional : Node → Bool
is_conditional x = truthy (get_attr x.attrs (codes "conditional"))

-- A signal that a reference can mean: no conditional one where there is another.
abbrev pub IsLive : List Node → Node → Type 0
IsLive signals x =
    In x signals
    × ((is_conditional x ≡ false) ⊎ ((y : Node) → In y signals → is_conditional y ≡ true))

-- One live signal at full confidence, besides which no live port is, or exactly the live ones, of
-- which there is one at least, at the ambiguous confidence.
abbrev pub SignalContract : List Node → Scored → Type 0
SignalContract signals r =
    ((x : Node) × IsLive signals x
      × (r ≡ (x.id ∷ [], confidence_resolved))
      × ((y : Node) → IsLive signals y → y.kind ≡ NodeKind.port → y ≡ x))
    ⊎ (All (λ id. (x : Node) × IsLive signals x × (id ≡ x.id)) r.0
        × ((y : Node) → IsLive signals y → In y.id r.0)
        × ((y : Node) × IsLive signals y)
        × (r.1 ≡ confidence_ambiguous))

module _ (signals : List Node) where
  -- The list has the live signals and no other.
  abbrev Exactly : List Node → Type 0
  Exactly xs = (x : Node) → In x xs ↔ IsLive signals x

  ids-IsLive :
      (xs : List Node)
      → ((x : Node) → In x xs → IsLive signals x)
      → All (λ id. (x : Node) × IsLive signals x × (id ≡ x.id)) (map (λ x. x.id) xs)
  ids-IsLive [] h = tt
  ids-IsLive (x ∷ xs) h = ((x, h x (inl refl), refl), ids-IsLive xs (λ y i. h y (inr i)))

  all_live :
      (x : Node) (xs : List Node)
      → Exactly (x ∷ xs)
      → SignalContract signals (map (λ x. x.id) (x ∷ xs), confidence_ambiguous)
  all_live x xs h = inr (
    ids-IsLive (x ∷ xs) (λ y i. (h y).0 i),
    (λ y l. In-map_of (λ (z : Node). z.id) y (x ∷ xs) ((h y).1 l)),
    (x, (h x).0 (inl refl)),
    refl,
  )

  -- What stands in a list of one is that one.
  the_only : (x y : Node) → In y (x ∷ []) → y ≡ x
  the_only x y (inl e) = e
  the_only x y (inr bad) = absurd bad

  by_ports-SignalContract :
      (x : Node) (xs ports : List Node)
      → Exactly (x ∷ xs)
      → ((y : Node) → In y ports ↔ (In y (x ∷ xs) × (is_port y ≡ true)))
      → SignalContract signals (by_ports (x ∷ xs) ports)
  unfolding by_ports is_port
  by_ports-SignalContract x xs [] h k = all_live x xs h
  by_ports-SignalContract x xs (p ∷ []) h k = inl (
    p,
    (h p).0 ((k p).0 (inl refl)).0,
    refl,
    (λ y l e. the_only p y ((k y).1 ((h y).1 l, (==_iff y.kind NodeKind.port).1 e))),
  )
  by_ports-SignalContract x xs (p ∷ q ∷ ps) h k = all_live x xs h

  by_selected-SignalContract :
      (x : Node) (xs : List Node) → Exactly (x ∷ xs) → SignalContract signals (by_selected (x ∷ xs))
  unfolding by_selected
  by_selected-SignalContract x [] h =
      inl (x, (h x).0 (inl refl), refl, (λ y l e. the_only x y ((h y).1 l)))
  by_selected-SignalContract x (y ∷ ys) h =
      by_ports-SignalContract x (y ∷ ys) (filter is_port (x ∷ y ∷ ys)) h
        (λ z. In-filter is_port z (x ∷ y ∷ ys))

abbrev is_unconditional : Node → Bool
is_unconditional x = not (is_conditional x)

not_iff : (b : Bool) → (not b ≡ true) ↔ (b ≡ false)
not_iff b = elim (Bool-cases b) [ inl e ↦ ground arith | inr e ↦ ground arith ]

-- `unconditional or signals` has the live signals and no other.
selected-Exactly :
    (signals kept : List Node)
    → ((x : Node) → In x kept ↔ (In x signals × (is_unconditional x ≡ true)))
    → Exactly signals (selected_or kept signals)
unfolding selected_or
selected-Exactly signals [] h x = (
  (λ i. (
    i,
    inr (λ y j. elim (Bool-cases (is_conditional y)) [
      | inl e ↦ e
      | inr e ↦ absurd ((h y).1 (j, (not_iff (is_conditional y)).1 e))
    ]),
  )),
  (λ l. l.0),
)
selected-Exactly signals (k ∷ ks) h x = (
  (λ i. let (j, e) = (h x).0 i in (j, inl ((not_iff (is_conditional x)).0 e))),
  (λ (j, c). elim c [
    | inl e ↦ (h x).1 (j, (not_iff (is_conditional x)).1 e)
    | inr all ↦
        let (l, e) = (h k).0 (inl refl) in
        let f = (not_iff (is_conditional k)).0 e in let t = all k l in absurd (ground arith)
  ]),
)

selected_or-SignalContract :
    (signals xs : List Node)
    → Exactly signals xs
    → ((xs ≡ []) → (x : Node) × In x xs)
    → SignalContract signals (by_selected xs)
selected_or-SignalContract signals [] h w = absurd ((w refl).1)
selected_or-SignalContract signals (x ∷ xs) h w = by_selected-SignalContract signals x xs h

selected_or-some :
    (kept : List Node) (x : Node) (xs : List Node) → (y : Node) × In y (selected_or kept (x ∷ xs))
unfolding selected_or
selected_or-some [] x xs = (x, inl refl)
selected_or-some (k ∷ ks) x xs = (k, inl refl)

-- For the signals of a name, at least one: the result is a single live one at full confidence, and
-- no other port is live; or it is all the live ones, at least one, at confidence 0.6. Live are the
-- signals outside undecided branches, or all of them where each is in such a branch.
pub signal_targets-SignalContract :
    (x : Node) (xs : List Node) → SignalContract (x ∷ xs) (signal_targets (x ∷ xs))
unfolding signal_targets
signal_targets-SignalContract x xs =
    let kept = filter is_unconditional (x ∷ xs) in
    let exact = selected-Exactly (x ∷ xs) kept (λ y. In-filter is_unconditional y (x ∷ xs)) in
    selected_or-SignalContract (x ∷ xs) (selected_or kept (x ∷ xs)) exact
      (λ _. selected_or-some kept x xs)
