-- ===== src/Worklist/Closure.antt =====
-- The worklist ends with enough fuel, and finds exactly the keys that a walk reaches.
use hdl_kgraph.Base.{
  Option, some, ℕ, zero, suc, ◌+◌, ◌≤◌, ◌≡◌, ◌⊎◌, ◌↔◌, inl, inr, refl, subst, true, some, List, [],
  ◌∷◌, Eq, Dict, has_key, keys, In, arith, length, lookup, Bool-cases,
}
use hdl_kgraph.Worklist.{offer, run, run_partial, Reach, seed, along}
use hdl_kgraph.Worklist.Offer.{unseen, has_key-offer, pending-offer, work-offer, lookup-offer}

module _ {K V : Type 0} ⦃e : Eq K⦄ (step : K → List (K × V)) where
  -- The loop returns if the fuel covers what is pending and what could still be found.
  pub run_ends :
      (all : List K)
      → ((j k : K) → In k (keys (step j)) → In k all)
      → (fuel : ℕ) (seen : Dict K V) (pending : List K) → length pending + unseen all seen ≤ fuel
      → (r : Dict K V) × (run step fuel seen pending ≡ some r)
  unfolding run
  run_ends all inside zero seen [] h = (seen, refl)
  run_ends all inside (suc fuel) seen [] h = (seen, refl)
  run_ends all inside zero seen (k ∷ pending) h = absurd (omega arith)
  run_ends all inside (suc fuel) seen (k ∷ pending) h =
      run_ends all inside fuel (offer (step k) seen pending).0 (offer (step k) seen pending).1
        (omega (arith, work-offer all (step k) seen pending (inside k)))

  -- What was known keeps its value to the end.
  pub lookup-run :
      (fuel : ℕ) (seen : Dict K V) (pending : List K) (r : Dict K V) (j : K) (v : V)
      → run step fuel seen pending ≡ some r
      → lookup seen j ≡ some v
      → lookup r j ≡ some v
  unfolding run
  lookup-run zero seen [] r j v h l = ground arith
  lookup-run (suc fuel) seen [] r j v h l = ground arith
  lookup-run zero seen (k ∷ pending) r j v h l = cc
  lookup-run (suc fuel) seen (k ∷ pending) r j v h l =
      lookup-run fuel (offer (step k) seen pending).0 (offer (step k) seen pending).1 r j v h
        (lookup-offer (step k) seen pending j v l)

  record Inv (seeds seen : Dict K V) (pending : List K) : Type 0 where
    kept : (k : K) → has_key seeds k ≡ true → has_key seen k ≡ true
    queued : (k : K) → In k pending → has_key seen k ≡ true
    sound : (k : K) → has_key seen k ≡ true → Reach step seeds k
    closed :
        (j k : K)
        → has_key seen j ≡ true
        → In k (keys (step j))
        → In j pending ⊎ (has_key seen k ≡ true)

  Inv-offer :
      (seeds seen : Dict K V) (k : K) (pending : List K)
      → Inv seeds seen (k ∷ pending)
      → Inv seeds (offer (step k) seen pending).0 (offer (step k) seen pending).1
  Inv-offer seeds seen k pending h =
      let known = λ (j : K). has_key-offer (step k) seen pending j in
      let queue = λ (j : K). pending-offer (step k) seen pending j in
      let reached = h.sound k (h.queued k (inl refl)) in
      record {
        kept = λ j m. (known j).1 (inl (h.kept j m));
        queued = λ j q. ground (arith, known j, queue j, h.queued j);
        sound =
            λ j m. elim ((known j).0 m) [ inl old ↦ h.sound j old | inr new ↦ along reached new ];
        closed = λ i j m s.
            ground (arith, known i, known j, queue i, h.closed i j, Bool-cases (has_key seen i));
      }

  Inv-run :
      (seeds : Dict K V) (fuel : ℕ) (seen : Dict K V) (pending : List K) (r : Dict K V)
      → run step fuel seen pending ≡ some r
      → Inv seeds seen pending
      → Inv seeds r []
  unfolding run
  Inv-run seeds zero seen [] r h v = let same : seen ≡ r = cc in subst (λ x. Inv seeds x []) same v
  Inv-run seeds (suc fuel) seen [] r h v =
      let same : seen ≡ r = cc in subst (λ x. Inv seeds x []) same v
  Inv-run seeds zero seen (k ∷ pending) r h v = absurd (cc)
  Inv-run seeds (suc fuel) seen (k ∷ pending) r h v =
      Inv-run seeds fuel (offer (step k) seen pending).0 (offer (step k) seen pending).1 r h
        (Inv-offer seeds seen k pending v)

  complete :
      (seeds r : Dict K V) → Inv seeds r [] → {k : K} → Reach step seeds k → has_key r k ≡ true
  complete seeds r v (seed m) = v.kept _ m
  complete seeds r v (along {j} {k} walk s) = elim (v.closed j k (complete seeds r v walk) s) [
    | inl waiting ↦ absurd waiting
    | inr m ↦ m
  ]

  Inv-start :
      (seeds : Dict K V) (pending : List K)
      → ((k : K) → In k pending ↔ (has_key seeds k ≡ true))
      → Inv seeds seeds pending
  Inv-start seeds pending h = record {
    kept = λ k m. m;
    queued = λ k q. (h k).0 q;
    sound = λ k m. seed m;
    closed = λ j k m s. inl ((h j).1 m);
  }

  -- From a stack of the seeds' keys, what the loop returns has exactly the keys that a walk reaches.
  pub run_correct :
      (seeds : Dict K V) (pending : List K) (fuel : ℕ) (r : Dict K V)
      → ((k : K) → In k pending ↔ (has_key seeds k ≡ true))
      → run step fuel seeds pending ≡ some r
      → (k : K) → (has_key r k ≡ true) ↔ Reach step seeds k
  run_correct seeds pending fuel r start h k =
      let v = Inv-run seeds fuel seeds pending r h (Inv-start seeds pending start) in
      (v.sound k, complete seeds r v)

-- Where no expansion raises, the loop is that of what the expansions list.
pub run_partial-run :
    {K V : Type 0} ⦃e : Eq K⦄ (step : K → Option (List (K × V))) (found : K → List (K × V))
    (fuel : ℕ) (seen : Dict K V) (pending : List K)
    → ((k : K) → step k ≡ some (found k))
    → run_partial step fuel seen pending ≡ run found fuel seen pending
unfolding run run_partial
run_partial-run step found fuel seen [] h = refl
run_partial-run step found zero seen (k ∷ pending) h = refl
run_partial-run step found (suc fuel) seen (k ∷ pending) h = rw (h k) (
    run_partial-run step found fuel (offer (found k) seen pending).0
      (offer (found k) seen pending).1 h)
