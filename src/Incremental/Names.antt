-- ===== src/Incremental/Names.antt =====
-- The names whose definitions changed, and the references that they can move: `definition_profiles`
-- to `affected_clean_refs` of src/hdl_kgraph/incremental.py. A set of names is the list of its
-- members, perhaps with repetitions; only membership is asked of it.
pub mod Affected
use hdl_kgraph.Base.{
  ℕ, Bool, true, false, not, ◌||◌, ◌&&◌, Option, none, some, List, [], ◌∷◌, ◌++◌, map, Text, codes,
  Dict, keys, lookup, insert, contains, any, filter, filter_map, flat_map, nat_eq, list_eq,
  option_eq, pair_eq, ◌==◌, if◌then◌else◌, sort_by, text_leb,
}
use hdl_kgraph.Schema.{Node, NodeKind, node_kind_eq, EdgeKind, AttrValue, get_attr, truthy, Attrs}
use hdl_kgraph.Schema.LanguageEnum
use hdl_kgraph.Ir.{FileIr}
use hdl_kgraph.Linker.Kinds.{RefRecord, ref_target_kinds, is_definition}

-- `DefKey`
abbrev pub DefKey : Type 0
DefKey = NodeKind × Text

-- A row of a profile: id, file, conditional, library, qualified name, language.
abbrev pub Row : Type 0
Row = List Text

abbrev pub Profiles : Type 0
Profiles = Dict DefKey (List Row)

-- `a <= b` on rows, as on tuples of texts.
row_leb : Row → Row → Bool
row_leb [] r = true
row_leb (s ∷ q) [] = false
row_leb (s ∷ q) (t ∷ r) = if s == t then row_leb q r else text_leb s t

-- `str` is Python's, of a value of `attrs`.
module _ (str : AttrValue → Text) where
  row : Node → Row
  row x =
      x.id
      ∷ x.file
      ∷ str (AttrValue.flag (truthy (get_attr x.attrs (codes "conditional"))))
      ∷ str (get_attr x.attrs (codes "library"))
      ∷ x.qualified_name
      ∷ LanguageEnum.value x.language
      ∷ []

  -- `buckets[key].append(row)`
  append_row : Profiles → DefKey → Row → Profiles
  append_row buckets key r =
      insert buckets key ((elim (lookup buckets key) [ none ↦ [] | some rs ↦ rs ]) ++ r ∷ [])

  collect : Profiles → List Node → Profiles
  unfolding append_row row
  collect buckets [] = buckets
  collect buckets (x ∷ xs) =
      collect
        (if is_definition x.kind then append_row buckets (x.kind, x.name) (row x) else buckets) xs

  pub definition_profiles : List Node → Profiles
  unfolding collect row_leb
  definition_profiles nodes = map (λ (key, rows). (key, sort_by row_leb rows)) (collect [] nodes)

pub changed_definition_names : Profiles → Profiles → List DefKey
changed_definition_names prior new =
    filter (λ key. not (lookup prior key == lookup new key)) (keys prior ++ keys new)

-- A definition node of a dirty file.
dirty_definition : List Text → Node → Option DefKey
dirty_definition dirty_files x =
    if is_definition x.kind && contains dirty_files x.file then some (x.kind, x.name) else none

-- `prior_nodes` are the nodes of the prior graph.
pub changed_target_names : List Node → List FileIr → List Text → List DefKey
unfolding dirty_definition
changed_target_names prior_nodes file_irs dirty_files =
    filter_map (dirty_definition dirty_files) prior_nodes
    ++ flat_map (λ ir. filter_map (dirty_definition dirty_files) ir.nodes) file_irs

-- `incremental_link_safe`: the reason to link in full, or `none`.
pub incremental_link_safe : Bool → Bool → Bool → Bool → Bool → Option Text
incremental_link_safe enrich has_vhdl has_binds has_cocotb has_sdc =
    if enrich
    then some (codes "enrichment is not incremental")
    else if has_vhdl
    then some (codes "VHDL incremental link not supported yet")
    else if has_binds
    then some (codes "bind/configuration directives not supported yet")
    else if has_cocotb
    then some (codes "cocotb cross-file DUT resolution not incremental")
    else if has_sdc
    then some (codes "SDC constraint resolution not incremental")
    else none

-- `kinds_by_name[name]`
kinds_named : List DefKey → Text → List NodeKind
kinds_named changed_names name =
    filter_map (λ (kind, n). if n == name then some kind else none) changed_names

affected_key : List DefKey → RefRecord → Option (Text × Text × EdgeKind)
unfolding kinds_named
affected_key changed_names rec =
    if any (λ k. contains (kinds_named changed_names rec.target_name) k)
      (ref_target_kinds rec.edge_kind)
    then some (rec.file, rec.src_id, rec.edge_kind)
    else none

pub affected_clean_refs : List RefRecord → List DefKey → List (Text × Text × EdgeKind)
unfolding affected_key
affected_clean_refs ref_records changed_names = filter_map (affected_key changed_names) ref_records
