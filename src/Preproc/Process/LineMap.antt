-- ===== src/Preproc/Process/LineMap.antt =====
-- Every line that a run of the preprocessor emits has its origin in the line map.
use hdl_kgraph.Base.{◌≡◌, refl, List, [], ◌∷◌, ◌++◌, Text, length, length-append, if_intro, arith}
use hdl_kgraph.Preproc.{State, CharClasses, LineOrigin}
use hdl_kgraph.Preproc.Define.{add_macro, undef_named}
use hdl_kgraph.Preproc.Includes.{Files, Options}
use hdl_kgraph.Preproc.Splice.{note_include, note_included}
use hdl_kgraph.Preproc.Process.{preprocess}
use hdl_kgraph.Preproc.Process.Stable.{IsRunStable, preprocess-keeps}

abbrev IsMapped : State → Type 0
IsMapped s = length s.out ≡ length s.line_map

module _ (files : Files) (options : Options) where
  mapped-line :
      (l : Text) (o : LineOrigin) (s : State)
      → IsMapped s
      → length (s.out ++ l ∷ []) ≡ length (s.line_map ++ o ∷ [])
  mapped-line l o s h =
      ground (arith, length-append s.out (l ∷ []), length-append s.line_map (o ∷ []))

  IsMapped-stable : IsRunStable files options (λ f. Unit) IsMapped
  unfolding add_macro undef_named note_include note_included
  IsMapped-stable = record {
    on_warn = λ w s h. h;
    on_use = λ u s h. h;
    on_line = λ l o s b h. mapped-line l o s h;
    on_cond = λ fs s h. h;
    on_define = λ m s h. h;
    on_undef = λ n s h. h;
    on_include = λ t f n r s h. h;
    on_spliced = λ p s w h. if_intro IsMapped _ _ _ h h;
    on_file = λ p w. tt;
    on_memo = λ t d s h. h;
  }

module _ (chars : CharClasses) (files : Files) (options : Options) where
  -- The line map of a run has exactly one origin for each line of its output, through macro
  -- expansions of several lines, dropped branches and nested includes.
  pub preprocess-line_map :
      (path : Text) (lines : List Text) (s : State)
      → let r = preprocess chars files options path lines s in length r.out ≡ length r.line_map
  preprocess-line_map path lines s =
      preprocess-keeps chars files options (λ f. Unit) IsMapped (IsMapped-stable files options) path
        lines s tt refl
