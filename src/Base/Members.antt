-- ===== src/Base/Members.antt =====
-- Membership as a proof-relevant relation that the tactics open, and the Boolean test for it.
use mathlib.Core.Path.{◌≡◌, refl, ap, sym, ◌∙◌, subst}
use mathlib.Core.Option.{Option, some}
use mathlib.Core.Logic.{◌↔◌, ◌⊎◌, inl, inr}
use mathlib.Core.Bool.{Bool, true, false, ◌||◌}
use mathlib.Core.List.{List, [], ◌∷◌, ◌++◌, map}
use native.Mathlib.Omega.{arith}
use hdl_kgraph.Base.Lists.{filter, reverse, filter_map, flat_map, any}
use hdl_kgraph.Base.Tests.{Option-cases, Bool-cases}
use hdl_kgraph.Base.Equality.{Eq, ◌==◌, ==_iff}

module _ {A : Type 0} where
  -- Where an element stands in a list: one value for each occurrence.
  abbrev pub In : A → List A → Type 0
  In a [] = ⊥
  In a (x ∷ xs) = (a ≡ x) ⊎ In a xs

  pub In-append : (a : A) (xs ys : List A) → In a (xs ++ ys) ↔ (In a xs ⊎ In a ys)
  In-append a [] ys = ground arith
  In-append a (x ∷ xs) ys = ground (arith, In-append a xs ys)

  pub In-filter :
      (p : A → Bool) (a : A) (xs : List A) → In a (filter p xs) ↔ (In a xs × (p a ≡ true))
  In-filter p a [] = ground arith
  In-filter p a (x ∷ xs) = ground (arith, In-filter p a xs)

module _ {A : Type 0} ⦃e : Eq A⦄ where
  -- `a in xs`
  unfoldable pub contains : List A → A → Bool
  contains [] a = false
  contains (x ∷ xs) a = a == x || contains xs a

  pub contains_iff : (xs : List A) (a : A) → (contains xs a ≡ true) ↔ In a xs
  unfolding contains
  contains_iff [] a = ground arith
  contains_iff (x ∷ xs) a = ground (arith, ==_iff a x, contains_iff xs a)

module _ {A : Type 0} where
  pub In-reverse : (a : A) (xs : List A) → In a (reverse xs) ↔ In a xs
  In-reverse a [] = ground arith
  In-reverse a (x ∷ xs) = ground (arith, In-append a (reverse xs) (x ∷ []), In-reverse a xs)

module _ {A B : Type 0} where
  pub In-map : (f : A → B) (b : B) (xs : List A) → In b (map f xs) → (a : A) × In a xs × (b ≡ f a)
  In-map f b [] h = absurd h
  In-map f b (x ∷ xs) (inl e) = (x, inl refl, e)
  In-map f b (x ∷ xs) (inr m) = let (a, i, e) = In-map f b xs m in (a, inr i, e)

  pub In-map_of : (f : A → B) (a : A) (xs : List A) → In a xs → In (f a) (map f xs)
  In-map_of f a [] h = absurd h
  In-map_of f a (x ∷ xs) (inl e) = inl (ap f e)
  In-map_of f a (x ∷ xs) (inr m) = inr (In-map_of f a xs m)

  pub In-filter_map :
      (f : A → Option B) (b : B) (xs : List A)
      → In b (filter_map f xs)
      → (a : A) × In a xs × (f a ≡ some b)
  In-filter_map f b [] h = absurd h
  In-filter_map f b (x ∷ xs) h = elim (Option-cases (f x)) [
    | inl e ↦
        let m : In b (filter_map f xs) = rw (e, filter_map) at h in
        let (a, i, q) = In-filter_map f b xs m in (a, inr i, q)
    | inr (y, e) ↦
        let m : (b ≡ y) ⊎ In b (filter_map f xs) = rw (e, filter_map) at h in
        elim m [
          | inl q ↦ (x, inl refl, e ∙ ap some (sym q))
          | inr r ↦ let (a, i, q) = In-filter_map f b xs r in (a, inr i, q)
        ]
  ]

  pub In-filter_map_of :
      (f : A → Option B) (a : A) (b : B) (xs : List A)
      → In a xs
      → f a ≡ some b
      → In b (filter_map f xs)
  In-filter_map_of f a b [] h e = absurd h
  In-filter_map_of f a b (x ∷ xs) h e = ground (arith, In-filter_map_of f a b xs)

  pub In-flat_map :
      (f : A → List B) (b : B) (xs : List A) → In b (flat_map f xs) → (a : A) × In a xs × In b (f a)
  In-flat_map f b [] h = absurd h
  In-flat_map f b (x ∷ xs) h = elim ((In-append b (f x) (flat_map f xs)).0 h) [
    | inl m ↦ (x, inl refl, m)
    | inr r ↦ let (a, i, q) = In-flat_map f b xs r in (a, inr i, q)
  ]

  pub In-flat_map_of :
      (f : A → List B) (a : A) (b : B) (xs : List A) → In a xs → In b (f a) → In b (flat_map f xs)
  In-flat_map_of f a b [] h m = absurd h
  In-flat_map_of f a b (x ∷ xs) h m =
      ground (arith, In-append b (f x) (flat_map f xs), In-flat_map_of f a b xs, ap f)

module _ {A : Type 0} (p : A → Bool) where
  pub any→ : (xs : List A) → any p xs ≡ true → (x : A) × In x xs × (p x ≡ true)
  any→ [] h = absurd (ground arith)
  any→ (x ∷ xs) h = elim (Bool-cases (p x)) [
    | inl e ↦ (x, inl refl, e)
    | inr e ↦ let (y, i, q) = any→ xs (ground arith) in (y, inr i, q)
  ]

  pub →any : (xs : List A) (x : A) → In x xs → p x ≡ true → any p xs ≡ true
  →any [] x h q = absurd h
  →any (y ∷ xs) x (inl e) q = let r : p y ≡ true = ap p (sym e) ∙ q in ground arith
  →any (y ∷ xs) x (inr i) q = ground (arith, →any xs x i q)

-- The predicate holds of every member.
module _ {A : Type 0} (P : A → Type 0) where
  abbrev pub All : List A → Type 0
  All [] = Unit
  All (x ∷ xs) = P x × All xs

  pub All-of : (xs : List A) → ((x : A) → In x xs → P x) → All xs
  All-of [] h = tt
  All-of (x ∷ xs) h = (h x (inl refl), All-of xs (λ y i. h y (inr i)))

  pub of-All : (xs : List A) → All xs → (x : A) → In x xs → P x
  of-All [] h x i = absurd i
  of-All (y ∷ ys) (h, hs) x (inl e) = subst P (sym e) h
  of-All (y ∷ ys) (h, hs) x (inr i) = of-All ys hs x i
