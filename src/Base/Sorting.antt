-- ===== src/Base/Sorting.antt =====
-- Python's `sorted`: stable, by a Boolean order on the keys.
use mathlib.Core.Path.{◌≡◌}
use mathlib.Core.Bool.{Bool, true, false, ◌||◌, ◌&&◌}
use mathlib.Core.List.{List, [], ◌∷◌}
use mathlib.Core.Logic.{◌↔◌, ◌⊎◌}
use native.Mathlib.Omega.{arith}
use hdl_kgraph.Base.Tests.{if◌then◌else◌, ltb}
use hdl_kgraph.Base.Equality.{Text, nat_eq, ◌==◌}
use hdl_kgraph.Base.Members.{In}

module _ {A : Type 0} (le : A → A → Bool) where
  unfoldable pub insert_sorted : A → List A → List A
  insert_sorted x [] = x ∷ []
  insert_sorted x (y ∷ ys) =
      let rest = insert_sorted x ys in if le x y then x ∷ y ∷ ys else y ∷ rest

  -- Equal elements keep their order, since each goes in before those that it does not exceed.
  unfoldable pub sort_by : List A → List A
  unfolding insert_sorted
  sort_by [] = []
  sort_by (x ∷ xs) = insert_sorted x (sort_by xs)

  In-insert_sorted : (a x : A) (xs : List A) → In a (insert_sorted x xs) ↔ ((a ≡ x) ⊎ In a xs)
  unfolding insert_sorted
  In-insert_sorted a x [] = ground arith
  In-insert_sorted a x (y ∷ ys) = ground (arith, In-insert_sorted a x ys)

  pub In-sort_by : (a : A) (xs : List A) → In a (sort_by xs) ↔ In a xs
  unfolding sort_by
  In-sort_by a [] = ground arith
  In-sort_by a (x ∷ xs) = ground (arith, In-insert_sorted a x (sort_by xs), In-sort_by a xs)

  abbrev pub IsSorted : List A → Type 0
  IsSorted [] = Unit
  IsSorted (x ∷ []) = Unit
  IsSorted (x ∷ y ∷ ys) = (le x y ≡ true) × IsSorted (y ∷ ys)

  insert_sorted-IsSorted :
      ((a b : A) → (le a b || le b a) ≡ true)
      → (x : A) (xs : List A) → IsSorted xs
      → IsSorted (insert_sorted x xs)
  unfolding insert_sorted
  insert_sorted-IsSorted total x [] h = tt
  insert_sorted-IsSorted total x (y ∷ []) h = ground (arith, total x y)
  insert_sorted-IsSorted total x (y ∷ z ∷ ys) h =
      ground (arith, total x y, insert_sorted-IsSorted total x (z ∷ ys))

  pub sort_by-IsSorted :
      ((a b : A) → (le a b || le b a) ≡ true) → (xs : List A) → IsSorted (sort_by xs)
  unfolding sort_by
  sort_by-IsSorted total [] = tt
  sort_by-IsSorted total (x ∷ xs) =
      insert_sorted-IsSorted total x (sort_by xs) (sort_by-IsSorted total xs)

-- `a <= b` on texts: by the first code point that differs.
unfoldable pub text_leb : Text → Text → Bool
text_leb [] t = true
text_leb (c ∷ s) [] = false
text_leb (c ∷ s) (d ∷ t) = ltb c d || (c == d && text_leb s t)

pub text_leb_total : (s t : Text) → (text_leb s t || text_leb t s) ≡ true
unfolding text_leb
text_leb_total [] t = ground arith
text_leb_total (c ∷ s) [] = ground arith
text_leb_total (c ∷ s) (d ∷ t) = ground (arith, text_leb_total s t)

unfoldable pub sorted : List Text → List Text
unfolding sort_by text_leb
sorted = sort_by text_leb

pub In-sorted : (t : Text) (ts : List Text) → In t (sorted ts) ↔ In t ts
unfolding sorted
In-sorted t ts = In-sort_by text_leb t ts

pub sorted-IsSorted : (ts : List Text) → IsSorted text_leb (sorted ts)
unfolding sorted
sorted-IsSorted ts = sort_by-IsSorted text_leb text_leb_total ts
