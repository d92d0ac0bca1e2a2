-- ===== src/Linker/Lex/Identifiers.antt =====
-- What `_lex_identifiers` of src/hdl_kgraph/graph/builder.py returns.
use hdl_kgraph.Base.{
  ◌≡◌, refl, ◌⊎◌, inl, inr, true, false, ◌||◌, List, [], ◌∷◌, ◌++◌, Text, all, contains, nat_eq,
  list_eq, if_intro, Bool-cases, arith, ==_iff, All, ℕ,
}
use hdl_kgraph.Linker.Lex.{
  is_ident_start, is_ident_char, tokens_from, is_expr_keyword, new_identifiers, lex_identifiers,
  strip_literals, close_token,
}

-- A character that starts an identifier, and characters that go on with it.
abbrev pub IsIdentifier : Text → Type 0
IsIdentifier [] = ⊥
IsIdentifier (c ∷ t) = (is_ident_start c ≡ true) × (all is_ident_char t ≡ true)

all-append :
    (t : Text) (c : ℕ)
    → all is_ident_char t ≡ true
    → is_ident_char c ≡ true
    → all is_ident_char (t ++ c ∷ []) ≡ true
all-append [] c h k = ground arith
all-append (d ∷ t) c h k = ground (arith, all-append t c)

-- Nothing, or the beginning of an identifier.
abbrev Begun : Text → Type 0
Begun t = (t ≡ []) ⊎ IsIdentifier t

tokens_from-IsIdentifier : (token t : Text) → Begun token → All IsIdentifier (tokens_from token t)
unfolding tokens_from close_token
tokens_from-IsIdentifier [] [] h = tt
tokens_from-IsIdentifier (d ∷ token) [] (inl e) = absurd (ground arith)
tokens_from-IsIdentifier (d ∷ token) [] (inr h) = (h, tt)
tokens_from-IsIdentifier [] (c ∷ t) h = elim (Bool-cases (is_ident_start c)) [
  | inl e ↦ rw e (tokens_from-IsIdentifier (c ∷ []) t (inr (e, refl)))
  | inr e ↦ rw e (tokens_from-IsIdentifier [] t (inl refl))
]
tokens_from-IsIdentifier (d ∷ token) (c ∷ t) (inl e) = absurd (ground arith)
tokens_from-IsIdentifier (d ∷ token) (c ∷ t) (inr h) = elim (Bool-cases (is_ident_char c)) [
  | inl e ↦
      rw e
        (tokens_from-IsIdentifier (d ∷ (token ++ c ∷ [])) t (inr (h.0, all-append token c h.1 e)))
  | inr e ↦ rw e (h, tokens_from-IsIdentifier [] t (inl refl))
]

module _ (lower : Text → Text) where
  -- No identifier stands twice.
  abbrev pub Distinct : List Text → Type 0
  Distinct [] = Unit
  Distinct (t ∷ ts) = (contains ts t ≡ false) × Distinct ts

  -- An identifier that is no keyword of an expression.
  abbrev pub IsName : Text → Type 0
  IsName t = IsIdentifier t × (is_expr_keyword lower t ≡ false)

  unseen_after :
      (seen ts : List Text) (t : Text)
      → contains seen t ≡ true
      → contains (new_identifiers lower seen ts) t ≡ false
  unfolding new_identifiers contains
  unseen_after seen [] t h = refl
  unseen_after seen (u ∷ ts) t h =
      ground (arith, unseen_after seen ts t, unseen_after (u ∷ seen) ts t, ==_iff u t, ==_iff t u)

  new_identifiers-Distinct : (seen ts : List Text) → Distinct (new_identifiers lower seen ts)
  unfolding new_identifiers contains
  new_identifiers-Distinct seen [] = tt
  new_identifiers-Distinct seen (t ∷ ts) =
      if_intro Distinct (is_expr_keyword lower t || contains seen t) _ _
        (new_identifiers-Distinct seen ts)
        (
          unseen_after (t ∷ seen) ts t (ground (arith, ==_iff t t)),
          new_identifiers-Distinct (t ∷ seen) ts,
        )

  new_identifiers-IsName :
      (seen ts : List Text) → All IsIdentifier ts → All IsName (new_identifiers lower seen ts)
  unfolding new_identifiers
  new_identifiers-IsName seen [] h = tt
  new_identifiers-IsName seen (t ∷ ts) (h, hs) =
      elim (Bool-cases (is_expr_keyword lower t || contains seen t)) [
        | inl e ↦ rw e (new_identifiers-IsName seen ts hs)
        | inr e ↦ rw e ((h, ground arith), new_identifiers-IsName (t ∷ seen) ts hs)
      ]

  -- Whatever the expression, each result is an identifier, none is a keyword when lowered, and none
  -- stands twice.
  pub lex_identifiers_lem :
      (expr_text : Text)
      → All IsName (lex_identifiers lower expr_text) × Distinct (lex_identifiers lower expr_text)
  unfolding lex_identifiers
  lex_identifiers_lem expr_text =
      let tokens = tokens_from [] (strip_literals expr_text) in
      (
        new_identifiers-IsName [] tokens
            (tokens_from-IsIdentifier [] (strip_literals expr_text) (inl refl)),
        new_identifiers-Distinct [] tokens,
      )
