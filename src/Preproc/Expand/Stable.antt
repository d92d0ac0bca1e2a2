-- ===== src/Preproc/Expand/Stable.antt =====
-- What macro expansion leaves alone: a predicate on the state that warnings and recorded uses keep
-- holds after any expansion.
use hdl_kgraph.Base.{
  ℕ, zero, suc, inl, inr, not, ◌||◌, ◌&&◌, Option, none, some, List, [], ◌∷◌, Text, codes, Dict,
  contains, length, drop, ltb, nat_eq, list_eq, ◌==◌, Bool-cases, if_intro,
}
use hdl_kgraph.Preproc.{LineOrigin, MacroDef, MacroUse, State, CharClasses, Warning, warn, note_use}
use hdl_kgraph.Preproc.Expand.{
  otherwise, value_of, bind, limited, with_arguments, expand_one, nested, expand_use, expand_text,
  expand, Deeper, scanned, with_params, looked_up, passed_directives, is_empty, take_word,
}

module _ (chars : CharClasses) (origin : LineOrigin) where
  -- A predicate that the two effects of an expansion keep.
  pub record IsStable (P : State → Type 0) : Type 0 where
    pub on_warn : (w : Warning) (s : State) → P s → P (warn w s)
    pub on_use : (u : MacroUse) (s : State) → P s → P (note_use u s)

  module _ (P : State → Type 0) (stable : IsStable P) where
    otherwise-keeps :
        (m p : Text) (d : Option Text) (s : State) → P s → P (otherwise chars origin m p d s).1
    unfolding otherwise
    otherwise-keeps m p (some d) s h = h
    otherwise-keeps m p none s h = stable.on_warn _ s h

    value_of-keeps :
        (m p : Text) (d : Option Text) (args : List Text) (s : State)
        → P s
        → P (value_of chars origin m p d args s).1
    unfolding value_of
    value_of-keeps m p d ((c ∷ a) ∷ args) s h = h
    value_of-keeps m p d ([] ∷ args) s h = otherwise-keeps m p d s h
    value_of-keeps m p d [] s h = otherwise-keeps m p d s h

    bind-keeps :
        (m : Text) (ps : List (Text × Option Text)) (args : List Text) (b : Dict Text Text)
        (s : State)
        → P s
        → P (bind chars origin m ps args b s).1
    unfolding bind
    bind-keeps m [] args b s h = h
    bind-keeps m ((p, d) ∷ ps) args b s h =
        bind-keeps m ps (drop 1 args) _ _ (value_of-keeps m p d args s h)

    limited-keeps :
        (m : Text) (n : ℕ) (args : List Text) (s : State)
        → P s
        → P (limited chars origin m n args s).1
    unfolding limited
    limited-keeps m n args s h = elim (Bool-cases (ltb n (length args))) [
      | inl e ↦ rw e (stable.on_warn _ s h)
      | inr e ↦ rw e h
    ]

    with_arguments-keeps :
        (macro : MacroDef) (ps : List (Text × Option Text)) (inner rest : Text) (s : State)
        → P s
        → P (with_arguments chars origin macro ps inner rest s).2
    unfolding with_arguments
    with_arguments-keeps macro ps inner rest s h =
        stable.on_use _ _
          (bind-keeps macro.name ps _ [] _ (limited-keeps macro.name (length ps) _ s h))

    scanned-keeps :
        (macro : MacroDef) (ps : List (Text × Option Text)) (behind : Text)
        (o : Option (Text × Text)) (s : State)
        → P s
        → P (scanned chars origin macro ps behind o s).2
    unfolding scanned
    scanned-keeps macro ps behind none s h = stable.on_use _ _ (stable.on_warn _ s h)
    scanned-keeps macro ps behind (some (inner, after)) s h =
        with_arguments-keeps macro ps inner after s h

    with_params-keeps :
        (macro : MacroDef) (o : Option (List (Text × Option Text))) (rest : Text) (s : State)
        → P s
        → P (with_params chars origin macro o rest s).2
    unfolding with_params
    with_params-keeps macro none rest s h = stable.on_use _ s h
    with_params-keeps macro (some ps) rest s h = scanned-keeps macro ps _ _ s h

    -- Deeper expansions that keep the predicate.
    abbrev DeeperKeeps : Deeper chars origin → Type 0
    DeeperKeeps none = Unit
    DeeperKeeps (some f) = (stack : List Text) (t : Text) (s : State) → P s → P (f stack t s).1

    nested-keeps :
        (d : Deeper chars origin) (stack : List Text) (name t : Text) (s : State)
        → DeeperKeeps d
        → P s
        → P (nested chars origin d stack name t s).1
    unfolding nested
    nested-keeps none stack name t s k h = stable.on_warn _ s h
    nested-keeps (some f) stack name t s k h = k _ t s h

    looked_up-keeps :
        (d : Deeper chars origin) (stack : List Text) (name rest : Text) (o : Option MacroDef)
        (s : State)
        → DeeperKeeps d
        → P s
        → P (looked_up chars origin d stack name rest o s).2
    unfolding looked_up expand_one
    looked_up-keeps d stack name rest none s k h = stable.on_use _ s h
    looked_up-keeps d stack name rest (some macro) s k h =
        nested-keeps d stack name _ _ k (with_params-keeps macro macro.params rest s h)

    expand_use-keeps :
        (d : Deeper chars origin) (stack : List Text) (name rest : Text) (s : State)
        → DeeperKeeps d
        → P s
        → P (expand_use chars origin d stack name rest s).2
    unfolding expand_use
    expand_use-keeps d stack name rest s k h =
        let Q = λ (r : Text × ℕ × State). P r.2 in
        if_intro Q (name == codes "__FILE__") _ _ h (
          if_intro Q (name == codes "__LINE__") _ _ h (
            if_intro Q (contains passed_directives name || contains stack name) _ _ h
              (looked_up-keeps d stack name rest _ s k h)))

    expand_text-keeps :
        (d : Deeper chars origin) (stack : List Text) (skip : ℕ) (t : Text) (s : State)
        → DeeperKeeps d
        → P s
        → P (expand_text chars origin d stack skip t s).1
    unfolding expand_text
    expand_text-keeps d stack skip [] s k h = h
    expand_text-keeps d stack (suc skip) (c ∷ t) s k h = expand_text-keeps d stack skip t s k h
    expand_text-keeps d stack zero (c ∷ t) s k h =
        if_intro (λ (r : Text × State). P r.1)
          (c == b'`' && not (is_empty (take_word chars.is_word t))) _ _
          (expand_text-keeps d stack _ t _ k (expand_use-keeps d stack _ _ s k h))
          (expand_text-keeps d stack zero t s k h)

    -- Every expansion keeps the predicate.
    pub expand-keeps :
        (depth : ℕ) (stack : List Text) (t : Text) (s : State)
        → P s
        → P (expand chars origin depth stack t s).1
    unfolding expand
    expand-keeps zero stack t s h = expand_text-keeps none stack zero t s tt h
    expand-keeps (suc depth) stack t s h =
        expand_text-keeps (some (expand chars origin depth)) stack zero t s (expand-keeps depth) h
