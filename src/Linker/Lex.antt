-- ===== src/Linker/Lex.antt =====
-- The identifiers of an actual expression: `_LITERAL_RE`, `_IDENT_RE` and `_lex_identifiers` of
-- src/hdl_kgraph/graph/builder.py. A character that a pattern names is its code point.
pub mod Identifiers
use hdl_kgraph.Base.{
  ℕ, zero, suc, Bool, true, false, ◌||◌, ◌&&◌, Option, none, some, List, [], ◌∷◌, ◌++◌, Text, codes,
  contains, nat_eq, list_eq, ◌==◌, if◌then◌else◌, leb,
}

between : ℕ → ℕ → ℕ → Bool
between low high c = leb low c && leb c high

-- `[A-Za-z_]`
pub is_ident_start : ℕ → Bool
unfolding between
is_ident_start c = between b'A' b'Z' c || (between b'a' b'z' c || c == b'_')

-- `[A-Za-z0-9_$]`
pub is_ident_char : ℕ → Bool
unfolding is_ident_start between
is_ident_char c = is_ident_start c || (between b'0' b'9' c || c == b'$')

-- `[0-9a-fA-FxXzZ?_]`
is_digit_of_literal : ℕ → Bool
unfolding between
is_digit_of_literal c =
    between b'0' b'9' c
    || (between b'a' b'f' c || (between b'A' b'F' c || contains (codes "xXzZ?_") c))

-- The length of the longest run of the class at the head of the text.
run_length : (ℕ → Bool) → Text → ℕ
run_length p [] = 0
run_length p (c ∷ t) = let rest = run_length p t in if p c then suc rest else 0

-- The length of what `[bBoOdDhH][0-9a-fA-FxXzZ?_]+` matches at the head of the text; 0 for no match.
based_length : Text → ℕ
unfolding run_length is_digit_of_literal contains
based_length [] = 0
based_length (c ∷ t) =
    let digits = run_length is_digit_of_literal t in
    if contains (codes "bBoOdDhH") c then (if digits == 0 then 0 else suc digits) else 0

-- The length of what `s?[bBoOdDhH][0-9a-fA-FxXzZ?_]+` matches: no base is an `s`.
signed_length : Text → ℕ
unfolding based_length
signed_length [] = 0
signed_length (c ∷ t) =
    let plain = based_length (c ∷ t) in
    let rest = based_length t in if c == b's' then (if rest == 0 then 0 else suc rest) else plain

-- The length of what `.'?` matches: any character but a line's end, with a quote behind it.
char_length : Text → ℕ
char_length [] = 0
char_length (c ∷ []) = if c == 10 then 0 else 1
char_length (c ∷ d ∷ t) = if c == 10 then 0 else if d == b'\'' then 2 else 1

-- The length up to the closing quotation mark and with it; 0 where none closes.
string_length : Text → ℕ
string_length [] = 0
string_length (c ∷ t) =
    let rest = string_length t in if c == b'"' then 1 else if rest == 0 then 0 else suc rest

-- What `_LITERAL_RE` matches behind the character `c`: the first alternative that does.
literal_length : ℕ → Text → ℕ
unfolding signed_length char_length string_length
literal_length c t =
    if c == b'\''
    then (if signed_length t == 0 then char_length t else signed_length t)
    else if c == b'"'
    then string_length t
    else 0

-- `_LITERAL_RE.sub(" ", text)`, with the number of characters of the current literal still to skip.
strip_from : ℕ → Text → Text
unfolding literal_length
strip_from skip [] = []
strip_from (suc skip) (c ∷ t) = strip_from skip t
strip_from zero (c ∷ t) =
    let n = literal_length c t in
    let kept = strip_from 0 t in
    let skipped = strip_from n t in if n == 0 then c ∷ kept else b' ' ∷ skipped

pub strip_literals : Text → Text
unfolding strip_from
strip_literals t = strip_from 0 t

-- A token that has begun is put out where it ends.
close_token : Text → List Text → List Text
close_token [] tokens = tokens
close_token (c ∷ token) tokens = (c ∷ token) ∷ tokens

-- `_IDENT_RE.findall(text)`, with the token that the scan is in, `[]` outside one.
pub tokens_from : Text → Text → List Text
unfolding close_token is_ident_char is_ident_start
tokens_from token [] = close_token token []
tokens_from [] (c ∷ t) =
    let inside = tokens_from (c ∷ []) t in
    let outside = tokens_from [] t in if is_ident_start c then inside else outside
tokens_from (d ∷ token) (c ∷ t) =
    let inside = tokens_from (d ∷ (token ++ c ∷ [])) t in
    let outside = tokens_from [] t in if is_ident_char c then inside else (d ∷ token) ∷ outside

-- `_EXPR_KEYWORDS`
abbrev pub expr_keywords : List Text
expr_keywords =
    codes "posedge"
    ∷ codes "negedge"
    ∷ codes "signed"
    ∷ codes "unsigned"
    ∷ codes "inside"
    ∷ codes "with"
    ∷ codes "open"
    ∷ codes "others"
    ∷ codes "null"
    ∷ codes "true"
    ∷ codes "false"
    ∷ codes "when"
    ∷ codes "else"
    ∷ codes "and"
    ∷ codes "or"
    ∷ codes "not"
    ∷ codes "xor"
    ∷ codes "nand"
    ∷ codes "nor"
    ∷ codes "xnor"
    ∷ codes "abs"
    ∷ codes "mod"
    ∷ codes "rem"
    ∷ codes "sll"
    ∷ codes "srl"
    ∷ codes "sla"
    ∷ codes "sra"
    ∷ codes "rol"
    ∷ codes "ror"
    ∷ codes "downto"
    ∷ codes "to"
    ∷ []

-- `lower` is Python's.
module _ (lower : Text → Text) where
  pub is_expr_keyword : Text → Bool
  unfolding contains
  is_expr_keyword t = contains expr_keywords (lower t)

  -- The loop over the tokens: neither keywords nor what is seen already.
  pub new_identifiers : List Text → List Text → List Text
  new_identifiers seen [] = []
  new_identifiers seen (t ∷ ts) =
      let skipped = new_identifiers seen ts in
      let rest = new_identifiers (t ∷ seen) ts in
      if is_expr_keyword t || contains seen t then skipped else t ∷ rest

  -- `_lex_identifiers`
  pub lex_identifiers : Text → List Text
  unfolding new_identifiers tokens_from strip_literals
  lex_identifiers expr_text = new_identifiers [] (tokens_from [] (strip_literals expr_text))
