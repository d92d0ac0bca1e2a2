-- ===== src/Incremental/Git/Inputs.antt =====
-- What `detect_git_changes` of src/hdl_kgraph/incremental.py lists are build inputs.
use hdl_kgraph.Base.{
  starts_with, codes, ◌≡◌, refl, true, Option, none, some, List, [], ◌∷◌, ◌++◌, Text, In, In-append,
  In-filter, In-sorted, All, All-of, filter, sorted, partition, nat_eq, list_eq, if_intro, arith,
}
use hdl_kgraph.Incremental.Hashes.{ChangeSet}
use hdl_kgraph.Incremental.Git.{
  renames, record_rename, record_other, PathParts, GitRun, GitChanges, refused, detected, not_found,
  failed, printed, is_build_input, if_input, record_one, record_rename, record_paths, record_fields,
  record_lines, changes_of, after_run, detect_git_changes, split_tabs, option_like, GitError,
}

module _ (path : PathParts) (suffixes : List Text) where
  -- Only build inputs are in the list.
  abbrev Inputs : List Text → Type 0
  Inputs ps = (p : Text) → In p ps → is_build_input path suffixes p ≡ true

  abbrev AllInputs : ChangeSet → Type 0
  AllInputs c = Inputs c.changed × Inputs c.added × Inputs c.removed

  append-Inputs : (ps : List Text) (q : Text) → Inputs ps → Inputs (ps ++ if_input path suffixes q)
  unfolding if_input
  append-Inputs ps q h p i = ground (arith, In-append p ps (if_input path suffixes q), h p)

  record_other-AllInputs :
      (status p : Text) (c : ChangeSet)
      → AllInputs c
      → AllInputs (record_other path suffixes status p c)
  unfolding record_other
  record_other-AllInputs status p c (h, a, r) =
      if_intro AllInputs (starts_with status (codes "D"))
        (record c { removed = c.removed ++ if_input path suffixes p })
        (record c { changed = c.changed ++ if_input path suffixes p })
        (h, a, append-Inputs c.removed p r) (append-Inputs c.changed p h, a, r)

  record_one-AllInputs :
      (status p : Text) (c : ChangeSet)
      → AllInputs c
      → AllInputs (record_one path suffixes status p c)
  unfolding record_one
  record_one-AllInputs status p c (h, a, r) =
      if_intro AllInputs (starts_with status (codes "A"))
        (record c { added = c.added ++ if_input path suffixes p })
        (record_other path suffixes status p c) (h, append-Inputs c.added p a, r)
        (record_other-AllInputs status p c (h, a, r))

  record_paths-AllInputs :
      (status : Text) (ps : List Text) (c : ChangeSet)
      → AllInputs c
      → AllInputs (record_paths path suffixes status ps c)
  unfolding record_paths record_rename
  record_paths-AllInputs status [] c k = k
  record_paths-AllInputs status (p ∷ []) c k = record_one-AllInputs status p c k
  record_paths-AllInputs status (old ∷ new ∷ []) c (h, a, r) =
      if_intro AllInputs (renames path suffixes status) (record_rename path suffixes old new c)
        (record_one path suffixes status old c)
        (h, append-Inputs c.added new a, append-Inputs c.removed old r)
        (record_one-AllInputs status old c (h, a, r))
  record_paths-AllInputs status (p ∷ q ∷ s ∷ ps) c k = record_one-AllInputs status p c k

  record_fields-AllInputs :
      (o : Option (Text × Text)) (c : ChangeSet)
      → AllInputs c
      → AllInputs (record_fields path suffixes o c)
  unfolding record_fields
  record_fields-AllInputs none c k = k
  record_fields-AllInputs (some (status, [])) c k = k
  record_fields-AllInputs (some (status, d ∷ rest)) c k =
      record_paths-AllInputs status (split_tabs (d ∷ rest)) c k

  record_lines-AllInputs :
      (ls : List Text) (c : ChangeSet) → AllInputs c → AllInputs (record_lines path suffixes ls c)
  unfolding record_lines
  record_lines-AllInputs [] c k = k
  record_lines-AllInputs (l ∷ ls) c k =
      record_lines-AllInputs ls _ (record_fields-AllInputs (partition b'\t' l) c k)

  sorted-Inputs : (ps : List Text) → Inputs ps → Inputs (sorted ps)
  sorted-Inputs ps h p i = h p ((In-sorted p ps).0 i)

  with_untracked :
      (ps untracked : List Text)
      → Inputs ps
      → Inputs (ps ++ filter (is_build_input path suffixes) untracked)
  with_untracked ps untracked h p i = ground (
    arith,
    In-append p ps (filter (is_build_input path suffixes) untracked),
    In-filter (is_build_input path suffixes) p untracked,
    h p,
  )

  changes_of-AllInputs :
      (diff untracked : List Text) → AllInputs (changes_of path suffixes diff untracked)
  unfolding changes_of
  changes_of-AllInputs diff untracked =
      let start : ChangeSet = record { changed = []; added = []; removed = [] } in
      let c = record_lines path suffixes diff start in
      let (h, a, r) =
        record_lines-AllInputs diff start
          ((λ p i. elim i [ ]), (λ p i. elim i [ ]), (λ p i. elim i [ ])) in
      (
        sorted-Inputs c.changed h,
        sorted-Inputs (c.added ++ filter (is_build_input path suffixes) untracked)
            (with_untracked c.added untracked a),
        sorted-Inputs c.removed r,
      )

  -- What a result lists: nothing if the reference or git is refused.
  abbrev pub listed : GitChanges → List Text
  listed (refused e) = []
  listed (detected c) = c.changed ++ (c.added ++ c.removed)

  after_run-Inputs : (run : GitRun) → Inputs (listed (after_run path suffixes run))
  unfolding after_run
  after_run-Inputs not_found p i = elim i [ ]
  after_run-Inputs (failed stderr) p i = elim i [ ]
  after_run-Inputs (printed diff untracked) p i =
      let c = changes_of path suffixes diff untracked in
      let (h, a, r) = changes_of-AllInputs diff untracked in
      ground (
        arith,
        In-append p c.changed (c.added ++ c.removed),
        In-append p c.added c.removed,
        h p,
        a p,
        r p,
      )

  -- Whatever git prints, each path that is listed as changed, added or removed is a build input, the
  -- two sides of a rename and the untracked files included, and a reference that could be read as an
  -- option is refused, whatever git would do with it.
  pub detect_git_changes-Inputs :
      (git : Text → GitRun) (ref rest : Text)
      → All
          (λ p. is_build_input path suffixes p ≡ true)
          (listed (detect_git_changes path suffixes git ref))
        × (detect_git_changes path suffixes git (b'-' ∷ rest)
            ≡ refused (GitError.looks_like_option (b'-' ∷ rest)))
  unfolding detect_git_changes option_like
  detect_git_changes-Inputs git ref rest = (
    All-of (λ p. is_build_input path suffixes p ≡ true) _
        (if_intro (λ (g : GitChanges). Inputs (listed g)) (option_like ref) _ _ (λ p i. elim i [ ])
          (after_run-Inputs (git ref))),
    refl,
  )
