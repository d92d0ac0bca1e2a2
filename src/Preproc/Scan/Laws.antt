-- ===== src/Preproc/Scan/Laws.antt =====
-- `_scan_parens` and `_split_top_commas` of src/hdl_kgraph/parser/preprocessor.py lose no character.
use hdl_kgraph.Base.{
  ℕ, suc, ◌-◌, ◌≡◌, refl, Option, none, some, List, [], ◌∷◌, ◌++◌, Text, nat_eq, arith, ==_iff, ◌∙◌,
  ◌≢◌, ap,
}
use hdl_kgraph.Preproc.Scan.{
  Mode, outside, inside, next_mode, scan_inner, scan_parens, split_at, extend, split_top_commas,
  push_char,
}

module _ (t : Text) where
  -- What a scan returns, with the closing parenthesis between, is the text that it read.
  abbrev Splits : Option (Text × Text) → Type 0
  Splits o = (a b : Text) → o ≡ some (a, b) → t ≡ a ++ b')' ∷ b

push-Splits :
    (c : ℕ) (t : Text) (o : Option (Text × Text)) → Splits t o → Splits (c ∷ t) (push_char c o)
unfolding push_char
push-Splits c t none h a b e = cc
push-Splits c t (some (x, y)) h a b e = let q = h x y refl in ground arith

scan_step :
    (depth c : ℕ) (t a b : Text)
    → (push_char c (scan_inner (suc depth) outside t) ≡ some (a, b) → c ∷ t ≡ a ++ b')' ∷ b)
    → (push_char c (scan_inner (depth - 1) outside t) ≡ some (a, b) → c ∷ t ≡ a ++ b')' ∷ b)
    → (push_char c (scan_inner depth (next_mode outside c) t) ≡ some (a, b) → c ∷ t ≡ a ++ b')' ∷ b)
    → scan_inner depth outside (c ∷ t) ≡ some (a, b)
    → c ∷ t ≡ a ++ b')' ∷ b
unfolding scan_inner
scan_step depth c t a b deeper shallower on h = ground arith

scan_none :
    (depth : ℕ) (m : Mode) (a b : Text) → scan_inner depth m [] ≡ some (a, b) → [] ≡ a ++ b')' ∷ b
unfolding scan_inner
scan_none depth m a b h = cc

scan_string :
    (depth p c : ℕ) (t a b : Text)
    → (push_char c (scan_inner depth (next_mode (inside p) c) t) ≡ some (a, b)
        → c ∷ t ≡ a ++ b')' ∷ b)
    → scan_inner depth (inside p) (c ∷ t) ≡ some (a, b)
    → c ∷ t ≡ a ++ b')' ∷ b
unfolding scan_inner
scan_string depth p c t a b next h = next h

scan_inner-Splits : (depth : ℕ) (m : Mode) (t : Text) → Splits t (scan_inner depth m t)
scan_inner-Splits depth m [] a b h = scan_none depth m a b h
scan_inner-Splits depth (inside p) (c ∷ t) a b h =
    scan_string depth p c t a b
      (push-Splits c t _ (scan_inner-Splits depth (next_mode (inside p) c) t) a b) h
scan_inner-Splits depth outside (c ∷ t) a b h =
    let deeper = push-Splits c t _ (scan_inner-Splits (suc depth) outside t) a b in
    let shallower = push-Splits c t _ (scan_inner-Splits (depth - 1) outside t) a b in
    let on = push-Splits c t _ (scan_inner-Splits depth (next_mode outside c) t) a b in
    scan_step depth c t a b deeper shallower on h

-- Pieces put together again with commas between them.
pub join_commas : List Text → Text
join_commas [] = []
join_commas (p ∷ []) = p
join_commas (p ∷ q ∷ ps) = p ++ b',' ∷ join_commas (q ∷ ps)

join-extend : (c : ℕ) (ps : List Text) → join_commas (extend c ps) ≡ c ∷ join_commas ps
unfolding join_commas
join-extend c [] = refl
join-extend c (p ∷ []) = refl
join-extend c (p ∷ q ∷ ps) = refl

extended :
    (c : ℕ) (ps : List Text) (t : Text) → join_commas ps ≡ t → join_commas (extend c ps) ≡ c ∷ t
extended c ps t h = join-extend c ps ∙ ap (λ (x : Text). c ∷ x) h

extend-ne-nil : (c : ℕ) (ps : List Text) → extend c ps ≢ []
extend-ne-nil c [] e = cc
extend-ne-nil c (p ∷ ps) e = cc

split_at-ne-nil : (opened closed : ℕ) (m : Mode) (t : Text) → split_at opened closed m t ≢ []
unfolding split_at
split_at-ne-nil opened closed m [] e = cc
split_at-ne-nil opened closed (inside p) (c ∷ t) e =
    extend-ne-nil c (split_at opened closed (next_mode (inside p) c) t) e
split_at-ne-nil opened closed outside (c ∷ t) e = ground (
  arith,
  extend-ne-nil c (split_at opened closed (next_mode outside c) t),
  extend-ne-nil c (split_at (suc opened) closed outside t),
  extend-ne-nil c (split_at opened (suc closed) outside t),
)

join-nil :
    (ps : List Text) (t : Text) → ps ≢ [] → join_commas ps ≡ t → join_commas ([] ∷ ps) ≡ b',' ∷ t
unfolding join_commas
join-nil [] t n h = absurd (n refl)
join-nil (p ∷ ps) t n h = ap (λ (x : Text). b',' ∷ x) h

split_step :
    (opened closed c : ℕ) (t : Text)
    → join_commas (extend c (split_at opened closed (next_mode outside c) t)) ≡ c ∷ t
    → join_commas (extend c (split_at (suc opened) closed outside t)) ≡ c ∷ t
    → join_commas (extend c (split_at opened (suc closed) outside t)) ≡ c ∷ t
    → join_commas ([] ∷ split_at opened closed (next_mode outside c) t) ≡ b',' ∷ t
    → join_commas (split_at opened closed outside (c ∷ t)) ≡ c ∷ t
unfolding split_at
split_step opened closed c t plain deeper shallower cut = ground arith

split_none : (opened closed : ℕ) (m : Mode) → join_commas (split_at opened closed m []) ≡ []
unfolding split_at join_commas
split_none opened closed m = refl

split_string :
    (opened closed p c : ℕ) (t : Text)
    → join_commas (extend c (split_at opened closed (next_mode (inside p) c) t)) ≡ c ∷ t
    → join_commas (split_at opened closed (inside p) (c ∷ t)) ≡ c ∷ t
unfolding split_at
split_string opened closed p c t h = h

join-split_at :
    (opened closed : ℕ) (m : Mode) (t : Text) → join_commas (split_at opened closed m t) ≡ t
join-split_at opened closed m [] = split_none opened closed m
join-split_at opened closed (inside p) (c ∷ t) =
    split_string opened closed p c t
      (extended c _ t (join-split_at opened closed (next_mode (inside p) c) t))
join-split_at opened closed outside (c ∷ t) =
    split_step opened closed c t
      (extended c _ t (join-split_at opened closed (next_mode outside c) t))
      (extended c _ t (join-split_at (suc opened) closed outside t))
      (extended c _ t (join-split_at opened (suc closed) outside t))
      (join-nil (split_at opened closed (next_mode outside c) t) t
        (split_at-ne-nil opened closed (next_mode outside c) t)
        (join-split_at opened closed (next_mode outside c) t))

-- Whatever brackets and quotes the text has, its pieces with commas between them are the text.
pub join-split_top_commas : (t : Text) → join_commas (split_top_commas t) ≡ t
unfolding split_top_commas
join-split_top_commas t = join-split_at 0 0 outside t

-- Where the scan of a text finds the closing parenthesis, the text is `(`, what it returns as the
-- inner text, `)`, and what it leaves.
pub scan_parens-eq-some :
    (t inner rest : Text) → scan_parens t ≡ some (inner, rest) → t ≡ b'(' ∷ (inner ++ b')' ∷ rest)
unfolding scan_parens
scan_parens-eq-some [] inner rest h = cc
scan_parens-eq-some (c ∷ t) inner rest h =
    ground (arith, ==_iff c b'(', scan_inner-Splits 1 outside t inner rest)
