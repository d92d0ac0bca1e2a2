-- ===== src/Preproc/Process/Roots.antt =====
-- The headers that a run of the preprocessor splices lie under the trusted roots, and so do the files
-- that the lines of its output come from.
use hdl_kgraph.Base.{
  refl, ◌≡◌, inl, inr, true, List, [], ◌∷◌, ◌++◌, Text, In, In-append, if_intro, sym, All, All-of,
  ◌⊎◌, subst,
}
use hdl_kgraph.Preproc.{State, CharClasses, LineOrigin}
use hdl_kgraph.Preproc.Define.{add_macro, undef_named}
use hdl_kgraph.Preproc.Includes.{Files, Options, within_allowed}
use hdl_kgraph.Preproc.Splice.{note_include, note_included}
use hdl_kgraph.Preproc.Process.{preprocess}
use hdl_kgraph.Preproc.Process.Stable.{IsRunStable, preprocess-keeps}

module _ (files : Files) (options : Options) where
  -- The path name of a file that lies under a trusted root.
  abbrev pub IsTrusted : Text → Type 0
  IsTrusted r = (p : Text) × (files.relpath p ≡ r) × (within_allowed files options p ≡ true)

  module _ (own : Text) where
    -- The unit itself, or a header that lies under a trusted root.
    abbrev pub IsAllowed : Text → Type 0
    IsAllowed f = (f ≡ own) ⊎ IsTrusted f

    abbrev IsConfined : State → Type 0
    IsConfined s =
        ((r : Text) → In r s.included_relpaths → IsTrusted r)
        × ((o : LineOrigin) → In o s.line_map → IsAllowed o.file)

    confined-spliced :
        (p : Text) (s : State)
        → within_allowed files options p ≡ true
        → IsConfined s
        → (r : Text) → In r (s.included_relpaths ++ files.relpath p ∷ [])
        → IsTrusted r
    confined-spliced p s w h r i =
        elim ((In-append r s.included_relpaths (files.relpath p ∷ [])).0 i) [
          | inl old ↦ h.0 r old
          | inr (inl e) ↦ (p, sym e, w)
          | inr (inr bad) ↦ elim bad [ ]
        ]

    confined-line :
        (o : LineOrigin) (s : State)
        → IsAllowed o.file
        → IsConfined s
        → (q : LineOrigin) → In q (s.line_map ++ o ∷ [])
        → IsAllowed q.file
    confined-line o s b h q i = elim ((In-append q s.line_map (o ∷ [])).0 i) [
      | inl old ↦ h.1 q old
      | inr (inl e) ↦ subst (λ (x : LineOrigin). IsAllowed x.file) (sym e) b
      | inr (inr bad) ↦ elim bad [ ]
    ]

    IsConfined-stable : IsRunStable files options IsAllowed IsConfined
    unfolding add_macro undef_named note_include note_included
    IsConfined-stable = record {
      on_warn = λ w s h. h;
      on_use = λ u s h. h;
      on_line = λ l o s b h. (h.0, confined-line o s b h);
      on_cond = λ fs s h. h;
      on_define = λ m s h. h;
      on_undef = λ n s h. h;
      on_include = λ t f n r s h. h;
      on_spliced = λ p s w h. if_intro IsConfined _ _ _ h (confined-spliced p s w h, h.1);
      on_file = λ p w. inr (p, refl, w);
      on_memo = λ t d s h. h;
    }

module _ (chars : CharClasses) (files : Files) (options : Options) where
  -- However the includes are nested and whatever the text of the directives is: every header that a
  -- run splices is the name of a file within the root or one of the configured include directories,
  -- and every line of the output has as its origin the file of the run itself or such a header.
  pub preprocess-confined :
      (path : Text) (lines : List Text) (s : State)
      → let t = preprocess chars files options path lines s in
        All (IsTrusted files options) t.included_relpaths
        × All (λ o. IsAllowed files options (files.relpath path) o.file) t.line_map
  preprocess-confined path lines s =
      let own = files.relpath path in
      let (trusted, allowed) =
        preprocess-keeps chars files options (IsAllowed files options own)
          (IsConfined files options own) (IsConfined-stable files options own) path lines s
          (inl refl) ((λ r i. elim i [ ]), (λ o i. elim i [ ])) in
      (All-of (IsTrusted files options) _ trusted, All-of _ _ allowed)
