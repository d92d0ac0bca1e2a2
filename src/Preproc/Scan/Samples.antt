-- ===== src/Preproc/Scan/Samples.antt =====
-- The scanner of argument lists on a concrete text.
use hdl_kgraph.Base.{◌≡◌, refl, ◌∷◌, ◌++◌, codes}
use hdl_kgraph.Preproc.Scan.{scan_parens, scan_inner, next_mode, push_char}
use hdl_kgraph.Preproc.Scan.Laws.{scan_parens-eq-some}

scan_parens-eq-some_example :
    codes "(a, (b)) tail" ≡ b'(' ∷ (codes "a, (b)" ++ b')' ∷ codes " tail")
unfolding scan_parens scan_inner next_mode push_char
scan_parens-eq-some_example =
    scan_parens-eq-some (codes "(a, (b)) tail") (codes "a, (b)") (codes " tail") refl
