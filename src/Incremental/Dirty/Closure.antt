-- ===== src/Incremental/Dirty/Closure.antt =====
-- `dirty_closure` of src/hdl_kgraph/incremental.py: it returns, and what it returns is the closure of
-- the seeds under the dependents.
use hdl_kgraph.Base.{
  ◌+◌, ◌≡◌, ◌↔◌, true, Option, some, List, Text, Dict, lookup, has_key, has_key_iff, keys, In,
  In-reverse, reverse, length, length-reverse, arith, nat_eq, list_eq, filter_map,
  length-filter_map, In-filter_map_of, none, ◌⊎◌, Option-cases, inl, inr, ◌∙◌, sym,
}
use hdl_kgraph.Schema.{Edge}
use hdl_kgraph.Graph.{MultiDiGraph, Laws}
use hdl_kgraph.Worklist.{run, Reach, seed, along}
use hdl_kgraph.Worklist.Offer.{unseen-le-length}
use hdl_kgraph.Worklist.Closure.{run_ends, run_correct, lookup-run, run_partial-run}
use hdl_kgraph.Incremental.Dirty.{file_relpath, dependents, dirty_closure}
use hdl_kgraph.Incremental.Dirty.Dependents.{
  Depends, HasMacros, found_dependents, found_dependents_iff, dependents_lem, file_relpath_iff,
  includes, uses_macro,
}

module _ (nx : MultiDiGraph) (laws : Laws nx) (g : nx.Graph) where
  -- The files that a chain of dependents leads to from the seeds.
  pub data Dirty (seeds : Dict Text Text) : Text → Type 0 where
    changed : {f : Text} → has_key seeds f ≡ true → Dirty seeds f
    dependent : {a b : Text} → Dirty seeds a → Depends nx g a b → Dirty seeds b

  abbrev source_file : Edge → Option Text
  source_file e = file_relpath e.src

  -- The files that are the source of an edge: no other is ever found.
  abbrev sources : List Text
  sources = filter_map source_file (nx.edges g)

  Depends-source : (a b : Text) → Depends nx g a b → In b sources
  Depends-source a b (includes e he k s t) =
      In-filter_map_of source_file e b (nx.edges g) he ((file_relpath_iff e.src b).1 s)
  Depends-source a b (uses_macro d u hd hu kd ku sd su du) =
      In-filter_map_of source_file u b (nx.edges g) hu ((file_relpath_iff u.src b).1 su)

  -- The closure under what the expansions list.
  found_closure : Dict Text Text → Option (Dict Text Text)
  found_closure seeds =
      run (found_dependents nx g) (length (keys seeds) + length (nx.edges g)) seeds
        (reverse (keys seeds))

  -- It ends, whatever the graph and the seeds.
  found_closure_returns :
      (seeds : Dict Text Text) → (r : Dict Text Text) × (found_closure seeds ≡ some r)
  unfolding found_closure
  found_closure_returns seeds =
      run_ends (found_dependents nx g) sources
        (λ a b m. Depends-source a b ((found_dependents_iff nx laws g a b).0 m))
        (length (keys seeds) + length (nx.edges g)) seeds (reverse (keys seeds))
        (omega (
          arith,
          unseen-le-length sources seeds,
          length-filter_map source_file (nx.edges g),
          length-reverse (keys seeds),
        ))

  Reach→Dirty :
      (seeds : Dict Text Text) {f : Text} → Reach (found_dependents nx g) seeds f → Dirty seeds f
  Reach→Dirty seeds (seed m) = changed m
  Reach→Dirty seeds (along {j} {k} w m) =
      dependent (Reach→Dirty seeds w) ((found_dependents_iff nx laws g j k).0 m)

  Dirty→Reach :
      (seeds : Dict Text Text) {f : Text} → Dirty seeds f → Reach (found_dependents nx g) seeds f
  Dirty→Reach seeds (changed m) = seed m
  Dirty→Reach seeds (dependent {a} {b} w d) =
      along (Dirty→Reach seeds w) ((found_dependents_iff nx laws g a b).1 d)

  exact :
      (seeds r : Dict Text Text)
      → found_closure seeds ≡ some r
      → (f : Text) → (has_key r f ≡ true) ↔ Dirty seeds f
  unfolding found_closure
  exact seeds r e f =
      let (to, from) =
        run_correct (found_dependents nx g) seeds (reverse (keys seeds))
          (length (keys seeds) + length (nx.edges g)) r
          (λ k. ground (arith, In-reverse k (keys seeds), has_key_iff seeds k)) e f in
      (λ m. Reach→Dirty seeds (to m), λ d. from (Dirty→Reach seeds d))

  keeps :
      (seeds r : Dict Text Text)
      → found_closure seeds ≡ some r
      → (f why : Text) → lookup seeds f ≡ some why
      → lookup r f ≡ some why
  unfolding found_closure
  keeps seeds r e f why =
      lookup-run (found_dependents nx g) (length (keys seeds) + length (nx.edges g)) seeds
        (reverse (keys seeds)) r f why e

  seed_or_not :
      (seeds r : Dict Text Text)
      → found_closure seeds ≡ some r
      → (f : Text) → (lookup seeds f ≡ none) ⊎ (lookup r f ≡ lookup seeds f)
  seed_or_not seeds r e f = elim (Option-cases (lookup seeds f)) [
    | inl absent ↦ inl absent
    | inr (why, l) ↦ inr (keeps seeds r e f why l ∙ sym l)
  ]

  dirty_closure_found :
      HasMacros nx g → (seeds : Dict Text Text) → dirty_closure nx g seeds ≡ found_closure seeds
  unfolding dirty_closure found_closure
  dirty_closure_found h seeds =
      run_partial-run (dependents nx g) (found_dependents nx g)
        (length (keys seeds) + length (nx.edges g)) seeds (reverse (keys seeds))
        (dependents_lem nx laws g h)

  -- In a graph that meets the laws of the interface and in which every macro that an edge defines
  -- carries data, `dirty_closure` returns a dict: no lookup raises; a file is in it exactly when it is
  -- a seed or a chain of includes and macro uses leads to it from one; and each file that is a seed
  -- keeps the reason it came with.
  pub dirty_closure_correct :
      HasMacros nx g
      → (seeds : Dict Text Text)
      → (r : Dict Text Text) × (dirty_closure nx g seeds ≡ some r)
        × ((f : Text) → (has_key r f ≡ true) ↔ Dirty seeds f)
        × ((f : Text) → (lookup seeds f ≡ none) ⊎ (lookup r f ≡ lookup seeds f))
  dirty_closure_correct h seeds =
      let (r, e) = found_closure_returns seeds in
      (r, dirty_closure_found h seeds ∙ e, exact seeds r e, seed_or_not seeds r e)
