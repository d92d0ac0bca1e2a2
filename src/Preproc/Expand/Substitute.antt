-- ===== src/Preproc/Expand/Substitute.antt =====
-- The substitution of parameters in a macro body, and `str.replace`, of `_expand_one` in
-- src/hdl_kgraph/parser/preprocessor.py.
use hdl_kgraph.Base.{
  ℕ, zero, suc, ◌-◌, Bool, false, not, ◌||◌, ◌&&◌, Option, none, some, [], ◌∷◌, ◌++◌, Text, Dict,
  starts_with, length, drop, nat_eq, list_eq, if◌then◌else◌,
}

-- `text.replace(old, new)` for an `old` that is not empty, over what is left behind `skip` characters.
replace_from : Text → Text → ℕ → Text → Text
unfolding starts_with
replace_from old new skip [] = []
replace_from old new (suc skip) (c ∷ t) = replace_from old new skip t
replace_from old new zero (c ∷ t) =
    let matched = replace_from old new (length old - 1) t in
    let on = replace_from old new zero t in
    if starts_with (c ∷ t) old then new ++ matched else c ∷ on

unfoldable pub replace_all : Text → Text → Text → Text
unfolding replace_from
replace_all old new t = replace_from old new zero t

module _ (is_word : ℕ → Bool) where
  -- Whether the character is there and a word character.
  word_at : Option ℕ → Bool
  word_at none = false
  word_at (some c) = is_word c

  head? : Text → Option ℕ
  head? [] = none
  head? (c ∷ t) = some c

  -- `\b` between two neighbours.
  boundary : Option ℕ → Option ℕ → Bool
  unfolding word_at
  boundary before after = not (word_at before && word_at after) && (word_at before || word_at after)

  last_of : Text → Option ℕ → Option ℕ
  last_of [] before = before
  last_of (c ∷ t) before = last_of t (some c)

  -- The first parameter that stands between word boundaries at the head of the text.
  match_at : Dict Text Text → Option ℕ → Text → Option (Text × Text)
  unfolding boundary head? last_of starts_with
  match_at [] before t = none
  match_at ((p, value) ∷ bindings) before t =
      if starts_with t p
        && (boundary before (head? t) && boundary (last_of p before) (head? (drop (length p) t)))
      then some (p, value)
      else match_at bindings before t

  named : Dict Text Text → Dict Text Text
  named [] = []
  named (([], value) ∷ bindings) = named bindings
  named ((c ∷ p, value) ∷ bindings) = (c ∷ p, value) ∷ named bindings

  -- All parameters in one pass, so that the text of an argument is never substituted again. A match
  -- of an empty name consumes nothing; behind it only a match that is not empty is taken.
  substitute_from : Dict Text Text → ℕ → Option ℕ → Text → Text
  unfolding match_at named
  substitute_from bindings skip before [] = elim (match_at bindings before []) [
    | none ↦ []
    | some (p, value) ↦ value
  ]
  substitute_from bindings (suc skip) before (c ∷ t) = substitute_from bindings skip (some c) t
  substitute_from bindings zero before (c ∷ t) =
      let on = substitute_from bindings zero (some c) t in
      elim (match_at bindings before (c ∷ t)) [
        | none ↦ c ∷ on
        | some (d ∷ p, value) ↦ value ++ substitute_from bindings (length p) (some c) t
        | some ([], value) ↦ value ++ (elim (match_at (named bindings) before (c ∷ t)) [
          | none ↦ c ∷ on
          | some (p, other) ↦ other ++ substitute_from bindings (length p - 1) (some c) t
        ])
      ]

  unfoldable pub substitute : Dict Text Text → Text → Text
  unfolding substitute_from
  substitute bindings body = substitute_from bindings zero none body
