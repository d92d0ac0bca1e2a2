-- ===== src/Base/Dictionary.antt =====
-- Python's `dict`: the pairs of key and value in the order of insertion.
use mathlib.Core.Path.{◌≡◌, refl}
use mathlib.Core.Logic.{◌↔◌, ◌⊎◌}
use mathlib.Core.Bool.{Bool, true, false, ◌||◌}
use mathlib.Core.List.{List, [], ◌∷◌}
use mathlib.Core.Option.{Option, none, some}
use native.Mathlib.Omega.{arith}
use hdl_kgraph.Base.Tests.{if◌then◌else◌}
use hdl_kgraph.Base.Equality.{Eq, ◌==◌, ==_iff}
use hdl_kgraph.Base.Members.{In}

abbrev pub Dict : Type 0 → Type 0 → Type 0
Dict K V = List (K × V)

module _ {K V : Type 0} where
  -- The keys in the order of insertion, `list(d)`.
  unfoldable pub keys : Dict K V → List K
  keys [] = []
  keys ((k, v) ∷ d) = k ∷ keys d

module _ {K V : Type 0} ⦃e : Eq K⦄ where
  -- `d.get(k)`
  unfoldable pub lookup : Dict K V → K → Option V
  lookup [] k = none
  lookup ((j, v) ∷ d) k = if j == k then some v else lookup d k

  -- `k in d`
  unfoldable pub has_key : Dict K V → K → Bool
  has_key [] k = false
  has_key ((j, v) ∷ d) k = j == k || has_key d k

  -- `d[k] = v`: an old key keeps its place.
  unfoldable pub insert : Dict K V → K → V → Dict K V
  insert [] k v = (k, v) ∷ []
  insert ((j, w) ∷ d) k v = if j == k then (j, v) ∷ d else (j, w) ∷ insert d k v

  -- `d.pop(k, None)`
  unfoldable pub remove : Dict K V → K → Dict K V
  remove [] k = []
  remove ((j, w) ∷ d) k = let rest = remove d k in if j == k then rest else (j, w) ∷ rest

  pub has_key_iff : (d : Dict K V) (k : K) → (has_key d k ≡ true) ↔ In k (keys d)
  unfolding has_key keys
  has_key_iff [] k = ground arith
  has_key_iff ((j, v) ∷ d) k = ground (arith, ==_iff j k, has_key_iff d k)

  pub lookup-insert :
      (d : Dict K V) (k : K) (v : V) (j : K)
      → lookup (insert d k v) j ≡ (if k == j then some v else lookup d j)
  unfolding lookup insert
  lookup-insert [] k v j = refl
  lookup-insert ((i, w) ∷ d) k v j =
      ground (arith, ==_iff i k, ==_iff i j, ==_iff k j, lookup-insert d k v j)

  pub lookup-remove :
      (d : Dict K V) (k j : K) → lookup (remove d k) j ≡ (if k == j then none else lookup d j)
  unfolding lookup remove
  lookup-remove [] k j = ground arith
  lookup-remove ((i, w) ∷ d) k j =
      ground (arith, ==_iff i k, ==_iff i j, ==_iff k j, lookup-remove d k j)

  pub has_key-eq-lookup :
      (d : Dict K V) (k : K) → has_key d k ≡ (elim (lookup d k) [ none ↦ false | some v ↦ true ])
  unfolding has_key lookup
  has_key-eq-lookup [] k = refl
  has_key-eq-lookup ((j, w) ∷ d) k = ground (arith, has_key-eq-lookup d k)

  pub has_key-insert :
      (d : Dict K V) (k : K) (v : V) (j : K) → has_key (insert d k v) j ≡ (k == j || has_key d j)
  unfolding has_key insert
  has_key-insert [] k v j = refl
  has_key-insert ((i, w) ∷ d) k v j =
      ground (arith, ==_iff i k, ==_iff i j, ==_iff k j, has_key-insert d k v j)

module _ {K V : Type 0} where
  -- No key stands twice: the invariant of a `dict`, which `insert` and `remove` keep.
  abbrev pub IsDict : Dict K V → Type 0
  IsDict [] = Unit
  IsDict ((k, v) ∷ d) = (¬ In k (keys d)) × IsDict d

module _ {K V : Type 0} ⦃e : Eq K⦄ where
  pub lookup-eq-none : (d : Dict K V) (k : K) → (lookup d k ≡ none) ↔ (has_key d k ≡ false)
  lookup-eq-none d k = ground (arith, has_key-eq-lookup d k)

  -- In a dict the pairs are what `lookup` finds.
  pub In-iff-lookup :
      (d : Dict K V) (k : K) (v : V) → IsDict d → In (k, v) d ↔ (lookup d k ≡ some v)
  unfolding lookup
  In-iff-lookup [] k v h = ground arith
  In-iff-lookup ((j, w) ∷ d) k v h =
      ground (arith, ==_iff j k, In-iff-lookup d k v, has_key_iff d k, has_key-eq-lookup d k)

  keys-insert :
      (d : Dict K V) (k : K) (v : V) (j : K) → In j (keys (insert d k v)) → (j ≡ k) ⊎ In j (keys d)
  keys-insert d k v j h =
      ground
        (arith, has_key-insert d k v j, has_key_iff (insert d k v) j, has_key_iff d j, ==_iff k j)

  pub insert-IsDict : (d : Dict K V) (k : K) (v : V) → IsDict d → IsDict (insert d k v)
  unfolding insert keys
  insert-IsDict [] k v h = ((λ x. x), tt)
  insert-IsDict ((j, w) ∷ d) k v h =
      ground (arith, ==_iff j k, insert-IsDict d k v, keys-insert d k v j)
