-- ===== src/Preproc/Scan.antt =====
-- `_scan_parens` and `_split_top_commas` of src/hdl_kgraph/parser/preprocessor.py.
pub mod Laws
mod Samples
use hdl_kgraph.Base.{
  ℕ, zero, suc, ◌+◌, ◌-◌, Bool, true, false, not, ◌||◌, ◌&&◌, Option, none, some, List, [], ◌∷◌,
  ◌++◌, Text, nat_eq, ◌==◌, if◌then◌else◌,
}

-- Where a scan stands: outside a string, or inside one with the character before.
pub data Mode : Type 0 where
  outside : Mode
  inside : ℕ → Mode

-- The mode after a character, for a scan that only tracks strings.
unfoldable pub next_mode : Mode → ℕ → Mode
next_mode outside c = if c == b'"' then inside c else outside
next_mode (inside p) c = if c == b'"' && not (p == b'\\') then outside else inside c

unfoldable pub is_outside : Mode → Bool
is_outside outside = true
is_outside (inside p) = false

push_char : ℕ → Option (Text × Text) → Option (Text × Text)
push_char c none = none
push_char c (some (a, b)) = some (c ∷ a, b)

-- The scan behind the opening parenthesis, `depth` deep: what stands before the closing one, and
-- what stands behind it.
scan_inner : ℕ → Mode → Text → Option (Text × Text)
unfolding next_mode push_char
scan_inner depth m [] = none
scan_inner depth (inside p) (c ∷ t) = push_char c (scan_inner depth (next_mode (inside p) c) t)
scan_inner depth outside (c ∷ t) =
    let deeper = scan_inner (suc depth) outside t in
    let shallower = scan_inner (depth - 1) outside t in
    let on = scan_inner depth (next_mode outside c) t in
    if c == b'('
    then push_char c deeper
    else if c == b')'
    then if depth == 1 then some ([], t) else push_char c shallower
    else push_char c on

-- Called only where the text begins with `(`; the rest of the text stands for the count of the
-- characters consumed.
unfoldable pub scan_parens : Text → Option (Text × Text)
unfolding scan_inner
scan_parens [] = none
scan_parens (c ∷ t) = if c == b'(' then scan_inner 1 outside t else none

abbrev is_opening : ℕ → Bool
is_opening c = c == b'(' || (c == b'[' || c == b'{')

abbrev is_closing : ℕ → Bool
is_closing c = c == b')' || (c == b']' || c == b'}')

-- Puts a character before the first piece.
abbrev extend : ℕ → List Text → List Text
extend c [] = (c ∷ []) ∷ []
extend c (p ∷ ps) = (c ∷ p) ∷ ps

-- The depth is the difference of the brackets opened and closed so far, which may be negative.
split_at : ℕ → ℕ → Mode → Text → List Text
unfolding next_mode
split_at opened closed m [] = [] ∷ []
split_at opened closed (inside p) (c ∷ t) =
    extend c (split_at opened closed (next_mode (inside p) c) t)
split_at opened closed outside (c ∷ t) =
    let plain = split_at opened closed (next_mode outside c) t in
    let deeper = split_at (suc opened) closed outside t in
    let shallower = split_at opened (suc closed) outside t in
    if c == b'"'
    then extend c plain
    else if is_opening c
    then extend c deeper
    else if is_closing c
    then extend c shallower
    else if c == b',' && opened == closed
    then [] ∷ plain
    else extend c plain

unfoldable pub split_top_commas : Text → List Text
unfolding split_at
split_top_commas t = split_at 0 0 outside t
