-- ===== src/Incremental/Hashes.antt =====
-- `ChangeSet` and `diff_hashes` of src/hdl_kgraph/incremental.py. The two mappings come as dicts
-- from relpath to content hash.
pub mod Exact
use hdl_kgraph.Base.{
  Bool, true, false, not, ◌||◌, Option, none, some, List, [], ◌∷◌, Text, Dict, keys, lookup,
  has_key, filter, filter_map, sorted, nat_eq, list_eq, ◌==◌, if◌then◌else◌,
}

pub record ChangeSet : Type 0 where
  pub changed : List Text
  pub added : List Text
  pub removed : List Text

-- `bool(list)`
abbrev non_empty : List Text → Bool
non_empty [] = false
non_empty (x ∷ xs) = true

-- `__bool__`
unfoldable pub is_change : ChangeSet → Bool
is_change c = non_empty c.changed || (non_empty c.added || non_empty c.removed)

-- `p in stored and stored[p] != h`
unfoldable pub differs : Dict Text Text → Text × Text → Bool
differs stored (p, h) = elim (lookup stored p) [ none ↦ false | some s ↦ not (s == h) ]

abbrev pub changed_path : Dict Text Text → Text × Text → Option Text
changed_path stored (p, h) = if differs stored (p, h) then some p else none

unfoldable pub diff_hashes : Dict Text Text → Dict Text Text → ChangeSet
diff_hashes stored current = record {
  changed = sorted (filter_map (changed_path stored) current);
  added = sorted (filter (λ p. not (has_key stored p)) (keys current));
  removed = sorted (filter (λ p. not (has_key current p)) (keys stored));
}
