-- ===== src/Base/Missing.antt =====
-- How many entries of a list are not yet in a set: the measure of the loops that mark what they meet.
use Prim.Native.Nat.{ℕ, ◌≤◌, ◌<◌}
use mathlib.Core.Path.{◌≡◌}
use mathlib.Core.Bool.{true, false, not}
use mathlib.Core.List.{List, [], ◌∷◌}
use native.Mathlib.Omega.{arith}
use hdl_kgraph.Base.Lists.{length, filter, length-filter}
use hdl_kgraph.Base.Equality.{Eq, ==_iff}
use hdl_kgraph.Base.Members.{In, contains}

module _ {A : Type 0} ⦃e : Eq A⦄ where
  pub missing : List A → List A → ℕ
  missing ks seen = length (filter (λ k. not (contains seen k)) ks)

  pub missing-le-length : (ks seen : List A) → missing ks seen ≤ length ks
  unfolding missing
  missing-le-length ks seen = length-filter (λ k. not (contains seen k)) ks

  module _ (seen later : List A)
      (grows : (k : A) → contains seen k ≡ true → contains later k ≡ true) where
    pub missing_le : (ks : List A) → missing ks later ≤ missing ks seen
    unfolding missing
    missing_le [] = omega arith
    missing_le (k ∷ ks) = ground (arith, missing_le ks, grows k)

    -- An entry that is marked leaves fewer.
    pub missing_less :
        (ks : List A) (c : A)
        → In c ks
        → contains seen c ≡ false
        → contains later c ≡ true
        → missing ks later < missing ks seen
    unfolding missing
    missing_less [] c h n m = absurd h
    missing_less (k ∷ ks) c h n m =
        ground (arith, missing_less ks c, missing_le ks, grows k, ==_iff c k)
