-- ===== src/Preproc/Includes.antt =====
-- Include resolution of src/hdl_kgraph/parser/preprocessor.py: `_resolve_include` with its memo,
-- `_within_allowed`, and the reading of the directive's argument.
use hdl_kgraph.Base.{
  Bool, Option, none, some, List, [], ◌∷◌, ◌++◌, Text, lookup, insert, any, partition, nat_eq,
  list_eq, pair_eq, ◌==◌, if◌then◌else◌, ℕ, list_beq, pair_beq,
}
use hdl_kgraph.Preproc.{State}
use hdl_kgraph.Preproc.Conditional.{BranchMode}

-- The file system and `pathlib`, as far as the preprocessor asks them. A path is a text.
pub record Files : Type 0 where
  -- `(directory / path_text).resolve()`
  pub join : Text → Text → Text
  pub is_file : Text → Bool
  pub parent : Text → Text
  -- `_relpath`
  pub relpath : Text → Text
  -- The lines of the text, and `none` for an `OSError`.
  pub read : Text → Option (List Text)
  -- `within_root(path, root)`
  pub within_root : Text → Text → Bool

-- The arguments of `Preprocessor`.
pub record Options : Type 0 where
  pub base : Text
  pub incdirs : List Text
  pub auto_incdirs : List Text
  pub branch_mode : BranchMode
  pub max_include_depth : ℕ
  pub max_expansion_depth : ℕ

-- `_INCLUDE_ARG_RE` at one place: a text that is not empty up to the closing character.
enclosed : ℕ → Text → Option Text
enclosed closing t = elim (partition closing t) [
  | none ↦ none
  | some ([], rest) ↦ none
  | some (c ∷ inner, rest) ↦ some (c ∷ inner)
]

-- `_INCLUDE_ARG_RE.search(arg)`
unfoldable pub include_arg : Text → Option Text
unfolding enclosed partition
include_arg [] = none
include_arg (c ∷ t) =
    let later = include_arg t in
    let here : Option Text =
      if c == b'"' then enclosed b'"' t else if c == b'<' then enclosed b'>' t else none in
    elim here [ none ↦ later | some inner ↦ some inner ]

module _ (files : Files) (options : Options) where
  -- The first directory in which the file exists.
  pub search_dirs : Text → List Text → Option Text
  search_dirs path_text [] = none
  search_dirs path_text (d ∷ ds) =
      let later = search_dirs path_text ds in
      if files.is_file (files.join d path_text) then some (files.join d path_text) else later

  -- The includer's directory, then the configured ones, then the discovered ones.
  pub search : Text → Text → Option Text
  unfolding search_dirs
  search path_text includer_dir =
      search_dirs path_text (includer_dir ∷ (options.incdirs ++ options.auto_incdirs))

  -- By what the memo has under the key.
  unfoldable pub memoized : Text → Text → Option (Option Text) → State → Option Text × State
  unfolding search insert
  memoized path_text includer_dir (some resolved) s = (resolved, s)
  memoized path_text includer_dir none s =
      let resolved = search path_text includer_dir in
      (resolved, record s { cache = insert s.cache (includer_dir, path_text) resolved })

  -- `_resolve_include`
  unfoldable pub resolve_include : Text → Text → State → Option Text × State
  unfolding memoized lookup list_beq pair_beq
  resolve_include path_text includer_dir s =
      memoized path_text includer_dir (lookup s.cache (includer_dir, path_text)) s

  -- `_within_allowed`
  unfoldable pub within_allowed : Text → Bool
  within_allowed path = any (λ root. files.within_root path root) (options.base ∷ options.incdirs)
