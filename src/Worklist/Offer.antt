-- ===== src/Worklist/Offer.antt =====
-- One round of the worklist: what it adds to the dict and to the stack, and how the work left falls.
use hdl_kgraph.Base.{
  ℕ, suc, ◌+◌, ◌≤◌, ◌≡◌, ◌⊎◌, ◌↔◌, inl, inr, refl, true, false, some, List, [], ◌∷◌, Eq, Dict,
  has_key, insert, keys, In, arith, length, has_key-insert, lookup, lookup-insert, ==_iff,
  if◌then◌else◌, has_key-eq-lookup,
}
use hdl_kgraph.Worklist.{offer}

module _ {K V : Type 0} ⦃e : Eq K⦄ where
  -- The entries of a list of keys that are not yet in the dict.
  pub unseen : List K → Dict K V → ℕ
  unseen [] seen = 0
  unseen (k ∷ ks) seen = if has_key seen k then unseen ks seen else suc (unseen ks seen)

  pub unseen-le-length : (ks : List K) (seen : Dict K V) → unseen ks seen ≤ length ks
  unfolding unseen
  unseen-le-length [] seen = omega arith
  unseen-le-length (k ∷ ks) seen = ground (arith, unseen-le-length ks seen)

  unseen-insert_le :
      (ks : List K) (seen : Dict K V) (k : K) (v : V) → unseen ks (insert seen k v) ≤ unseen ks seen
  unfolding unseen
  unseen-insert_le [] seen k v = omega arith
  unseen-insert_le (j ∷ ks) seen k v =
      ground (arith, unseen-insert_le ks seen k v, has_key-insert seen k v j)

  -- Finding a key of the list leaves fewer unseen.
  unseen-insert :
      (ks : List K) (seen : Dict K V) (k : K) (v : V)
      → In k ks
      → has_key seen k ≡ false
      → suc (unseen ks (insert seen k v)) ≤ unseen ks seen
  unfolding unseen
  unseen-insert [] seen k v h new = absurd h
  unseen-insert (j ∷ ks) seen k v h new = ground (
    arith,
    unseen-insert ks seen k v,
    unseen-insert_le ks seen k v,
    has_key-insert seen k v j,
    ==_iff k j,
  )

  -- The keys that a round knows afterwards: the old ones and those it was offered.
  pub has_key-offer :
      (found : List (K × V)) (seen : Dict K V) (pending : List K) (j : K)
      → (has_key (offer found seen pending).0 j ≡ true)
        ↔ ((has_key seen j ≡ true) ⊎ In j (keys found))
  unfolding offer keys
  has_key-offer [] seen pending j = ground arith
  has_key-offer ((k, w) ∷ found) seen pending j = ground (
    arith,
    has_key-offer found seen pending j,
    has_key-offer found (insert seen k w) (k ∷ pending) j,
    has_key-insert seen k w j,
    ==_iff k j,
  )

  pub pending-offer :
      (found : List (K × V)) (seen : Dict K V) (pending : List K) (j : K)
      → In j (offer found seen pending).1 ↔ (
          In j pending ⊎ (has_key (offer found seen pending).0 j ≡ true) × (has_key seen j ≡ false))
  unfolding offer
  pending-offer [] seen pending j = ground arith
  pending-offer ((k, w) ∷ found) seen pending j = ground (
    arith,
    pending-offer found seen pending j,
    pending-offer found (insert seen k w) (k ∷ pending) j,
    has_key-insert seen k w j,
    has_key-offer found (insert seen k w) (k ∷ pending) j,
    ==_iff k j,
  )

  -- What is pending or unseen does not grow, if what is offered stands in the list.
  pub work-offer :
      (all : List K) (found : List (K × V)) (seen : Dict K V) (pending : List K)
      → ((k : K) → In k (keys found) → In k all)
      → length (offer found seen pending).1 + unseen all (offer found seen pending).0
        ≤ length pending + unseen all seen
  unfolding offer keys
  work-offer all [] seen pending h = omega arith
  work-offer all ((k, w) ∷ found) seen pending h = ground (
    arith,
    work-offer all found seen pending (λ j m. h j (inr m)),
    work-offer all found (insert seen k w) (k ∷ pending) (λ j m. h j (inr m)),
    unseen-insert all seen k w (h k (inl refl)),
  )

  -- A key that was known keeps its value.
  pub lookup-offer :
      (found : List (K × V)) (seen : Dict K V) (pending : List K) (j : K) (v : V)
      → lookup seen j ≡ some v
      → lookup (offer found seen pending).0 j ≡ some v
  unfolding offer
  lookup-offer [] seen pending j v h = h
  lookup-offer ((k, w) ∷ found) seen pending j v h = ground (
    arith,
    lookup-offer found seen pending j v,
    lookup-offer found (insert seen k w) (k ∷ pending) j v,
    lookup-insert seen k w j,
    ==_iff k j,
    has_key-eq-lookup seen k,
  )
