-- ===== src/Linker/Targets/Score.antt =====
-- The confidence contract of `_score` in src/hdl_kgraph/graph/builder.py.
use hdl_kgraph.Base.{
  ◌≡◌, refl, ◌⊎◌, inl, inr, Bool, true, List, [], ◌∷◌, Text, In, In-filter, nat_eq, list_eq, ◌==◌,
  if◌then◌else◌,
}
use hdl_kgraph.Schema.{
  AttrValue, confidence_resolved, confidence_unique_match, confidence_ambiguous,
}
use hdl_kgraph.Graph.{MultiDiGraph}
use hdl_kgraph.Linker.Store.{LinkState, obj_of}
use hdl_kgraph.Linker.Targets.{
  Scored, or_else, file_of, one_candidate, by_condition, unconditional, by_file, local_candidates,
  score,
}

module _ (nx : MultiDiGraph) (lower : Text → Text) (str : AttrValue → Text) (s : LinkState nx)
    (src_id : Text) where
  -- The candidate is declared in the file of the referrer.
  abbrev pub is_local : Text → Bool
  is_local c = (obj_of nx lower str s c).file == file_of nx lower str s src_id

  -- Either all the candidates at the ambiguous confidence, or a single one of them: certain in the
  -- referrer's file, a unique match elsewhere.
  abbrev pub Contract : List Text → Scored → Type 0
  Contract cs r =
      (r ≡ (cs, confidence_ambiguous))
      ⊎ ((c : Text) × In c cs
          × (r ≡ (c ∷ [], if is_local c then confidence_resolved else confidence_unique_match)))

  by_condition-Contract :
      (cs selected : List Text)
      → ((c : Text) → In c selected → In c cs)
      → Contract cs (by_condition nx lower str s src_id cs selected)
  unfolding by_condition one_candidate
  by_condition-Contract cs [] sub = inl refl
  by_condition-Contract cs (c ∷ []) sub = inr (c, sub c (inl refl), refl)
  by_condition-Contract cs (c ∷ d ∷ ds) sub = inl refl

  unconditional-sub : (cs : List Text) (c : Text) → In c (unconditional nx lower str s cs) → In c cs
  unfolding unconditional
  unconditional-sub cs c i = ((In-filter _ c cs).0 i).0

  or_else-sub :
      (local cs : List Text)
      → ((c : Text) → In c local → In c cs)
      → (c : Text) → In c (or_else local cs)
      → In c cs
  unfolding or_else
  or_else-sub [] cs sub c i = i
  or_else-sub (l ∷ ls) cs sub c i = sub c i

  by_file-Contract :
      (cs local : List Text)
      → ((c : Text) → In c local → In c cs × (is_local c ≡ true))
      → Contract cs (by_file nx lower str s src_id cs local)
  unfolding by_file
  by_file-Contract cs [] sub =
      by_condition-Contract cs (unconditional nx lower str s (or_else [] cs))
        (λ c i. or_else-sub [] cs (λ d j. (sub d j).0) c (unconditional-sub (or_else [] cs) c i))
  by_file-Contract cs (c ∷ []) sub = let (i, h) = sub c (inl refl) in inr (c, i, rw h refl)
  by_file-Contract cs (c ∷ d ∷ ds) sub =
      by_condition-Contract cs (unconditional nx lower str s (or_else (c ∷ d ∷ ds) cs)) (λ e i.
        or_else-sub (c ∷ d ∷ ds) cs (λ f j. (sub f j).0) e
          (unconditional-sub (or_else (c ∷ d ∷ ds) cs) e i))

  local-sub :
      (cs : List Text) (c : Text)
      → In c (local_candidates nx lower str s src_id cs)
      → In c cs × (is_local c ≡ true)
  unfolding local_candidates
  local-sub cs c i = (In-filter _ c cs).0 i

  -- Whatever the candidates, scoring keeps all of them at confidence 0.6, or picks one of them, at 1.0
  -- if it is declared in the referrer's file and at 0.8 if not.
  pub score-Contract : (cs : List Text) → Contract cs (score nx lower str s cs src_id)
  unfolding score one_candidate
  score-Contract [] = by_file-Contract [] (local_candidates nx lower str s src_id []) (local-sub [])
  score-Contract (c ∷ []) = inr (c, inl refl, refl)
  score-Contract (c ∷ d ∷ ds) =
      by_file-Contract (c ∷ d ∷ ds) (local_candidates nx lower str s src_id (c ∷ d ∷ ds))
        (local-sub (c ∷ d ∷ ds))
