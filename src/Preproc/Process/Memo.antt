-- ===== src/Preproc/Process/Memo.antt =====
-- The memo of include resolution is transparent: after any runs it answers what a search would.
use hdl_kgraph.Base.{
  ◌≡◌, refl, Option, none, some, List, Text, lookup, insert, nat_eq, list_eq, pair_eq, if_intro,
  arith, lookup-insert, ==_iff,
}
use hdl_kgraph.Preproc.{State, CharClasses}
use hdl_kgraph.Preproc.Define.{add_macro, undef_named}
use hdl_kgraph.Preproc.Includes.{Files, Options, search, memoized, resolve_include}
use hdl_kgraph.Preproc.Splice.{note_include, note_included}
use hdl_kgraph.Preproc.Process.{preprocess}
use hdl_kgraph.Preproc.Process.Stable.{IsRunStable, preprocess-keeps}

module _ (files : Files) (options : Options) where
  -- What the memo has under a key is what a search of the directories finds.
  abbrev pub IsFaithful : State → Type 0
  IsFaithful s =
      (dir text : Text) (o : Option Text)
      → lookup s.cache (dir, text) ≡ some o
      → o ≡ search files options text dir

  memo-insert :
      (t d : Text) (s : State)
      → IsFaithful s
      → IsFaithful (record s { cache = insert s.cache (d, t) (search files options t d) })
  memo-insert t d s h dir text o e = ground (
    arith,
    lookup-insert {K = Text × Text} s.cache (d, t) (search files options t d) (dir, text),
    ==_iff {A = Text × Text} (d, t) (dir, text),
    h dir text o,
  )

  IsFaithful-stable : IsRunStable files options (λ f. Unit) IsFaithful
  unfolding add_macro undef_named note_include note_included
  IsFaithful-stable = record {
    on_warn = λ w s h. h;
    on_use = λ u s h. h;
    on_line = λ l o s b h. h;
    on_cond = λ fs s h. h;
    on_define = λ m s h. h;
    on_undef = λ n s h. h;
    on_include = λ t f n r s h. h;
    on_spliced = λ p s w h. if_intro IsFaithful _ _ _ h h;
    on_file = λ p w. tt;
    on_memo = memo-insert;
  }

  memoized-search :
      (text dir : Text) (o : Option (Option Text)) (s : State)
      → ((r : Option Text) → o ≡ some r → r ≡ search files options text dir)
      → (memoized files options text dir o s).0 ≡ search files options text dir
  unfolding memoized
  memoized-search text dir none s h = refl
  memoized-search text dir (some r) s h = h r refl

module _ (chars : CharClasses) (files : Files) (options : Options) where
  -- If every entry of the memo is what a search finds, then after a further run the memoised
  -- resolution of any include still gives what a search gives.
  pub resolve_include-transparent :
      (path : Text) (lines : List Text) (s : State) (text dir : Text)
      → IsFaithful files options s
      → (resolve_include files options text dir (preprocess chars files options path lines s)).0
        ≡ search files options text dir
  unfolding resolve_include
  resolve_include-transparent path lines s text dir h = memoized-search files options text dir _ _ (
      preprocess-keeps chars files options (λ f. Unit) (IsFaithful files options)
        (IsFaithful-stable files options) path lines s tt h dir text)
