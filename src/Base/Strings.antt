-- ===== src/Base/Strings.antt =====
-- The methods of Python's `str` that the program uses, on texts as lists of code points.
use mathlib.Core.Path.{◌≡◌, refl}
use mathlib.Core.Bool.{Bool, true, false, ◌&&◌, ◌||◌}
use mathlib.Core.Logic.{◌≢◌}
use mathlib.Core.List.{[], ◌∷◌, ◌++◌}
use mathlib.Core.Option.{Option, none, some}
use native.Mathlib.Omega.{arith}
use Prim.Native.Nat.{ℕ}
use hdl_kgraph.Base.Tests.{if◌then◌else◌}
use hdl_kgraph.Base.Equality.{◌==◌, ==_refl, nat_eq, Text}

-- `some rest` where the text is `prefix ++ rest`: `text[len(prefix):]` behind `startswith`.
unfoldable pub strip_prefix : Text → Text → Option Text
strip_prefix [] t = some t
strip_prefix (p ∷ ps) [] = none
strip_prefix (p ∷ ps) (c ∷ t) = if p == c then strip_prefix ps t else none

unfoldable pub starts_with : Text → Text → Bool
starts_with t [] = true
starts_with [] (p ∷ ps) = false
starts_with (c ∷ t) (p ∷ ps) = p == c && starts_with t ps

-- `text.partition(sep)` for a separator of one character: `none` where it does not occur.
unfoldable pub partition : ℕ → Text → Option (Text × Text)
partition sep [] = none
partition sep (c ∷ t) =
    if c == sep
    then some ([], t)
    else elim (partition sep t) [ none ↦ none | some (a, b) ↦ some (c ∷ a, b) ]

-- `text.partition(sep)` for the separator `sep sep` (`::`).
unfoldable pub partition_double : ℕ → Text → Option (Text × Text)
partition_double sep [] = none
partition_double sep (c ∷ []) = none
partition_double sep (c ∷ d ∷ t) =
    let rest = partition_double sep (d ∷ t) in
    if c == sep && d == sep
    then some ([], t)
    else elim rest [ none ↦ none | some (a, b) ↦ some (c ∷ a, b) ]

-- `text.split(sep, 1)[0]`
unfoldable pub before_first : ℕ → Text → Text
before_first sep [] = []
before_first sep (c ∷ t) = if c == sep then [] else c ∷ before_first sep t

unfoldable pub has_char : ℕ → Text → Bool
has_char sep [] = false
has_char sep (c ∷ t) = c == sep || has_char sep t

-- `text.rsplit(sep, 1)[-1]`
unfoldable pub after_last : ℕ → Text → Text
unfolding has_char
after_last sep [] = []
after_last sep (c ∷ t) = if has_char sep t || c == sep then after_last sep t else c ∷ t

pub strip_prefix-append : (p t : Text) → strip_prefix p (p ++ t) ≡ some t
unfolding strip_prefix
strip_prefix-append [] t = refl
strip_prefix-append (c ∷ p) t = rw (==_refl c) (strip_prefix-append p t)

pub partition-append :
    (sep : ℕ) (a b : Text) → has_char sep a ≡ false → partition sep (a ++ sep ∷ b) ≡ some (a, b)
unfolding partition has_char
partition-append sep [] b h = rw (==_refl sep)
partition-append sep (c ∷ a) b h = ground (arith, partition-append sep a b)

pub partition_double-append :
    (sep : ℕ) (a b : Text)
    → has_char sep a ≡ false
    → partition_double sep (a ++ sep ∷ sep ∷ b) ≡ some (a, b)
unfolding partition_double has_char
partition_double-append sep [] b h = rw (==_refl sep)
partition_double-append sep (c ∷ []) b h = ground (arith, ==_refl sep)
partition_double-append sep (c ∷ d ∷ a) b h = ground (arith, partition_double-append sep (d ∷ a) b)

pub partition_double-eq-none :
    (sep : ℕ) (t : Text) → has_char sep t ≡ false → partition_double sep t ≡ none
unfolding partition_double has_char
partition_double-eq-none sep [] h = refl
partition_double-eq-none sep (c ∷ []) h = refl
partition_double-eq-none sep (c ∷ d ∷ t) h = ground (arith, partition_double-eq-none sep (d ∷ t))

-- A single separator between texts without it is no double one, if the second is not empty.
pub partition_double-single :
    (sep : ℕ) (a : Text) (c : ℕ) (b : Text)
    → has_char sep a ≡ false
    → (c == sep) ≡ false
    → partition_double sep (a ++ sep ∷ c ∷ b)
      ≡ (elim (partition_double sep (c ∷ b)) [ none ↦ none | some (x, y) ↦ some (a ++ sep ∷ x, y) ])
unfolding partition_double has_char
partition_double-single sep [] c b h n = ground (arith, ==_refl sep)
partition_double-single sep (d ∷ []) c b h n = ground (arith, partition_double-single sep [] c b)
partition_double-single sep (d ∷ e ∷ a) c b h n =
    ground (arith, partition_double-single sep (e ∷ a) c b)

pub has_char-append :
    (sep : ℕ) (a b : Text) → has_char sep (a ++ b) ≡ (has_char sep a || has_char sep b)
unfolding has_char
has_char-append sep [] b = refl
has_char-append sep (c ∷ a) b = ground (arith, has_char-append sep a b)

pub before_first_self : (sep : ℕ) (t : Text) → has_char sep t ≡ false → before_first sep t ≡ t
unfolding before_first has_char
before_first_self sep [] h = refl
before_first_self sep (c ∷ t) h = ground (arith, before_first_self sep t)

pub after_last_self : (sep : ℕ) (t : Text) → has_char sep t ≡ false → after_last sep t ≡ t
unfolding after_last has_char
after_last_self sep [] h = refl
after_last_self sep (c ∷ t) h = ground (arith, after_last_self sep t)

pub after_last-append :
    (sep : ℕ) (a b : Text) → has_char sep b ≡ false → after_last sep (a ++ sep ∷ b) ≡ b
unfolding after_last has_char
after_last-append sep [] b h = ground (arith, ==_refl sep, after_last_self sep b)
after_last-append sep (c ∷ a) b h =
    ground (arith, after_last-append sep a b, has_char-append sep a (sep ∷ b), ==_refl sep)

-- A text whose separators stand between texts without it, not all empty, has no double one.
pub partition_double-join :
    (sep : ℕ) (a b : Text)
    → has_char sep a ≡ false
    → has_char sep b ≡ false
    → partition_double sep (a ++ sep ∷ b) ≡ none
unfolding partition_double has_char
partition_double-join sep [] [] ha hb = refl
partition_double-join sep [] (c ∷ b) ha hb = ground (arith, partition_double-eq-none sep (c ∷ b))
partition_double-join sep (d ∷ []) b ha hb = ground (arith, partition_double-join sep [] b)
partition_double-join sep (d ∷ e ∷ a) b ha hb = ground (arith, partition_double-join sep (e ∷ a) b)

pub partition_double-join_three :
    (sep : ℕ) (a b t : Text)
    → has_char sep a ≡ false
    → has_char sep b ≡ false
    → b ≢ []
    → has_char sep t ≡ false
    → partition_double sep (a ++ sep ∷ (b ++ sep ∷ t)) ≡ none
unfolding partition_double has_char
partition_double-join_three sep a [] t ha hb n ht = absurd (n refl)
partition_double-join_three sep [] (c ∷ b) t ha hb n ht =
    ground (arith, partition_double-join sep (c ∷ b) t)
partition_double-join_three sep (d ∷ []) (c ∷ b) t ha hb n ht =
    ground (arith, partition_double-join_three sep [] (c ∷ b) t)
partition_double-join_three sep (d ∷ e ∷ a) (c ∷ b) t ha hb n ht =
    ground (arith, partition_double-join_three sep (e ∷ a) (c ∷ b) t)
