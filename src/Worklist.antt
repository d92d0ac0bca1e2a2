-- ===== src/Worklist.antt =====
-- The loop that several parts of the program share: a stack of keys still to expand, and a dict of
-- the keys found so far, each with the value it was first found with.
pub mod Offer
pub mod Closure
use hdl_kgraph.Base.{
  ℕ, zero, suc, Bool, true, false, Option, none, some, List, [], ◌∷◌, Eq, Dict, has_key, insert,
  keys, In, ◌≡◌, and_then,
}

module _ {K V : Type 0} ⦃e : Eq K⦄ where
  -- `for key, value in found: if key not in seen: seen[key] = value; pending.append(key)`. The
  -- last of `pending` is the head of the list.
  pub offer : List (K × V) → Dict K V → List K → Dict K V × List K
  offer [] seen pending = (seen, pending)
  offer ((k, v) ∷ rest) seen pending = elim (has_key seen k) [
    | true ↦ offer rest seen pending
    | false ↦ offer rest (insert seen k v) (k ∷ pending)
  ]

  -- The loop below where the expansion of a key can raise; `none` means that it did, or that the fuel
  -- ran out.
  pub run_partial : (K → Option (List (K × V))) → ℕ → Dict K V → List K → Option (Dict K V)
  unfolding offer
  run_partial step fuel seen [] = some seen
  run_partial step zero seen (k ∷ pending) = none
  run_partial step (suc fuel) seen (k ∷ pending) = and_then (step k) (λ found.
      let (seen', pending') = offer found seen pending in run_partial step fuel seen' pending')

  module _ (step : K → List (K × V)) where
    -- `while pending: key = pending.pop(); …` on fuel; `none` means that the fuel ran out.
    pub run : ℕ → Dict K V → List K → Option (Dict K V)
    run fuel seen [] = some seen
    run zero seen (k ∷ pending) = none
    run (suc fuel) seen (k ∷ pending) =
        let (seen', pending') = offer (step k) seen pending in run fuel seen' pending'

    -- The keys that a walk along `step` reaches from the keys of `seeds`.
    pub data Reach (seeds : Dict K V) : K → Type 0 where
      seed : {k : K} → has_key seeds k ≡ true → Reach seeds k
      along : {j k : K} → Reach seeds j → In k (keys (step j)) → Reach seeds k
