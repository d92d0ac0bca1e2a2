-- ===== src/Climb.antt =====
-- The climb from a node to the unit that contains it, which the linker and the analyses share: through
-- the parents, with the set of the nodes seen so far as the guard against cycles.
pub mod Ends
use hdl_kgraph.Base.{
  ℕ, zero, suc, Bool, true, false, ◌≡◌, Option, none, some, List, [], ◌∷◌, Text, contains, nat_eq,
  list_eq, if◌then◌else◌,
}

module _ (is_unit : Text → Bool) (parent : Text → Option Text) where
  -- The loop on fuel: `none` means that the fuel ran out.
  pub climb : ℕ → List Text → Option Text → Option (Option Text)
  unfolding contains
  climb fuel seen none = some none
  climb zero seen (some current) = none
  climb (suc fuel) seen (some current) =
      let above = climb fuel (current ∷ seen) (parent current) in
      if contains seen current
      then some none
      else if is_unit current
      then some (some current)
      else above

  found : Option (Option Text) → Option Text
  found none = none
  found (some r) = r

  -- The climb from a node, with two steps more than there are nodes that have a parent.
  pub nearest : ℕ → Text → Option Text
  unfolding climb found
  nearest bound node_id = found (climb (suc (suc bound)) [] (some node_id))

  -- The unit stands so many parents above the node, and no unit stands between.
  pub data Climbs (unit : Text) : ℕ → Text → Type 0 where
    here : is_unit unit ≡ true → Climbs unit 0 unit
    up :
        {n : ℕ} {id above : Text}
        → is_unit id ≡ false
        → parent id ≡ some above
        → Climbs unit n above
        → Climbs unit (suc n) id
