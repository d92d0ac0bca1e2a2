-- ===== src/Incremental/Git.antt =====
-- `is_build_input`, `reject_option_like_ref` and `detect_git_changes` of src/hdl_kgraph/incremental.py.
-- What git prints and the parts of a path that pathlib gives are parameters.
pub mod Inputs
use hdl_kgraph.Base.{
  Bool, true, false, not, ◌||◌, Option, none, some, List, [], ◌∷◌, ◌++◌, Text, codes, contains,
  filter, starts_with, partition, sorted, nat_eq, list_eq, ◌==◌, if◌then◌else◌, list_beq,
}
use hdl_kgraph.Incremental.Hashes.{ChangeSet}

-- `Path(relpath).suffix` and `Path(relpath).name`
pub record PathParts : Type 0 where
  pub suffix : Text → Text
  pub name : Text → Text

-- How the two runs of git end: not at all, with what stderr says, stripped, or with the lines of the diff and those of the untracked files.
pub data GitRun : Type 0 where
  not_found : GitRun
  failed : Text → GitRun
  printed : List Text → List Text → GitRun

-- The `RuntimeError`s.
pub data GitError : Type 0 where
  looks_like_option : Text → GitError
  git_not_found : GitError
  git_failed : Text → GitError

pub data GitChanges : Type 0 where
  refused : GitError → GitChanges
  detected : ChangeSet → GitChanges

-- `EXTRA_SUFFIXES`
abbrev extra_suffixes : List Text
extra_suffixes = codes ".f" ∷ codes ".vc" ∷ []

abbrev config_filename : Text
config_filename = codes "hdl-kgraph.toml"

-- `text.split("\t")`
split_tabs : Text → List Text
split_tabs [] = [] ∷ []
split_tabs (c ∷ t) = elim (split_tabs t) [
  | [] ↦ [] ∷ []
  | p ∷ ps ↦ if c == b'\t' then [] ∷ (p ∷ ps) else (c ∷ p) ∷ ps
]

-- `reject_option_like_ref`: the reference is refused.
pub option_like : Text → Bool
option_like [] = true
option_like (c ∷ t) = c == b'-'

module _ (path : PathParts) (suffixes : List Text) where
  pub is_build_input : Text → Bool
  unfolding contains list_beq
  is_build_input relpath =
      contains suffixes (path.suffix relpath)
      || (contains extra_suffixes (path.suffix relpath) || path.name relpath == config_filename)

  -- The path, if it is a build input.
  pub if_input : Text → List Text
  unfolding is_build_input
  if_input p = if is_build_input p then p ∷ [] else []

  renames : Text → Bool
  renames status = starts_with status (codes "R") || starts_with status (codes "C")

  -- A path that is there no longer, or that has other text.
  pub record_other : Text → Text → ChangeSet → ChangeSet
  unfolding if_input
  record_other status p c =
      if starts_with status (codes "D")
      then record c { removed = c.removed ++ if_input p }
      else record c { changed = c.changed ++ if_input p }

  -- A change of one path, by its status.
  pub record_one : Text → Text → ChangeSet → ChangeSet
  unfolding if_input record_other
  record_one status p c =
      if starts_with status (codes "A")
      then record c { added = c.added ++ if_input p }
      else record_other status p c

  pub record_rename : Text → Text → ChangeSet → ChangeSet
  unfolding if_input
  record_rename old new c = record c {
    removed = c.removed ++ if_input old;
    added = c.added ++ if_input new;
  }

  pub record_paths : Text → List Text → ChangeSet → ChangeSet
  unfolding record_one record_rename renames
  record_paths status [] c = c
  record_paths status (old ∷ new ∷ []) c =
      if renames status then record_rename old new c else record_one status old c
  record_paths status (p ∷ ps) c = record_one status p c

  pub record_fields : Option (Text × Text) → ChangeSet → ChangeSet
  unfolding record_paths split_tabs
  record_fields none c = c
  record_fields (some (status, [])) c = c
  record_fields (some (status, d ∷ rest)) c = record_paths status (split_tabs (d ∷ rest)) c

  -- The loop over the lines of the diff.
  pub record_lines : List Text → ChangeSet → ChangeSet
  unfolding record_fields partition
  record_lines [] c = c
  record_lines (l ∷ ls) c = record_lines ls (record_fields (partition b'\t' l) c)

  pub changes_of : List Text → List Text → ChangeSet
  unfolding record_lines is_build_input
  changes_of diff untracked =
      let c = record_lines diff (record { changed = []; added = []; removed = [] }) in
      record {
        changed = sorted c.changed;
        added = sorted (c.added ++ filter is_build_input untracked);
        removed = sorted c.removed;
      }

  -- The run of git, which the reference is passed to, is made only if the reference is accepted.
  pub after_run : GitRun → GitChanges
  unfolding changes_of
  after_run not_found = refused git_not_found
  after_run (failed stderr) =
      refused (git_failed (if stderr == [] then codes "git diff failed" else stderr))
  after_run (printed diff untracked) = detected (changes_of diff untracked)

  -- `detect_git_changes`
  unfoldable pub detect_git_changes : (Text → GitRun) → Text → GitChanges
  unfolding after_run option_like
  detect_git_changes git ref =
      if option_like ref then refused (looks_like_option ref) else after_run (git ref)
