-- ===== src/Linker/Targets.antt =====
-- The targets of a reference: `_filter_library` to `_record_binding` of
-- src/hdl_kgraph/graph/builder.py.
pub mod Score
pub mod Known
use hdl_kgraph.Base.{
  ℕ, zero, suc, Bool, true, false, not, ◌||◌, ◌&&◌, Option, none, some, List, [], ◌∷◌, ◌++◌, Text,
  codes, Dict, lookup, has_key, insert, contains, any, filter, flat_map, starts_with, nat_eq,
  list_eq, pair_eq, option_eq, ◌==◌, if◌then◌else◌, leb, ltb, length,
}
use hdl_kgraph.Schema.{
  Node, Edge, NodeKind, node_kind_eq, EdgeKind, edge_kind_eq, Language, language_eq, AttrValue,
  Attrs, get_attr, truthy, confidence_resolved, confidence_unique_match, confidence_ambiguous,
}
use hdl_kgraph.Ids.{file_node_id}
use hdl_kgraph.Ir.{UnresolvedRef}
use hdl_kgraph.Graph.{MultiDiGraph}
use hdl_kgraph.Linker.Kinds.{sv_instantiable, vhdl_instantiable, ref_kinds, stub_kind}
use hdl_kgraph.Linker.Store.{LinkState, Binding, get_list, obj_of, checked, ensure_stub}

-- `_VHDL_DEFAULT_LIBRARY`
abbrev pub vhdl_default_library : Text
vhdl_default_library = codes "work"

-- The targets of a reference with their confidence.
abbrev pub Scored : Type 0
Scored = List Text × ℕ

-- `a or b` on lists.
unfoldable pub or_else : List Text → List Text → List Text
or_else [] ys = ys
or_else (x ∷ xs) ys = x ∷ xs

-- `attrs.get(key)` where a text or `None` is stored.
unfoldable pub text_attr : Attrs → Text → Option Text
unfolding get_attr
text_attr attrs key = elim (get_attr attrs key) [ AttrValue.str t ↦ some t | _ ↦ none ]

-- `attrs.get("library", library) == library`
in_library : Text → Node → Bool
in_library library x = elim (lookup x.attrs (codes "library")) [
  | none ↦ true
  | some (AttrValue.str t) ↦ t == library
  | some _ ↦ false
]

module _ (nx : MultiDiGraph) (lower : Text → Text) (str : AttrValue → Text) where
  abbrev obj : LinkState nx → Text → Node
  obj s id = obj_of nx lower str s id

  -- `_src_language`
  pub src_language : LinkState nx → UnresolvedRef → Language
  src_language s ref = elim (lookup s.node_obj ref.src_id) [
    | none ↦ Language.unknown
    | some x ↦ x.language
  ]

  -- `self.node_file.get(id, "")`
  pub file_of : LinkState nx → Text → Text
  file_of s id = elim (lookup s.node_file id) [ none ↦ [] | some f ↦ f ]

  -- `_referrer_library`
  pub referrer_library : LinkState nx → Text → Text
  unfolding file_of
  referrer_library s src_id = elim (lookup s.node_obj (file_node_id (file_of s src_id))) [
    | none ↦ vhdl_default_library
    | some x ↦ elim (lookup x.attrs (codes "library")) [
      | none ↦ vhdl_default_library
      | some v ↦ str v
    ]
  ]

  -- `_filter_foreign`
  pub filter_foreign : LinkState nx → UnresolvedRef → List Text → List Text
  unfolding or_else
  filter_foreign s ref candidates =
      let foreign =
        filter (λ c. (obj s c).language == Language.c || (obj s c).language == Language.cpp)
          candidates in
      if truthy (get_attr ref.attrs (codes "dpi_export"))
      then filter
          (λ c.
            (obj s c).language == Language.systemverilog || (obj s c).language == Language.verilog)
          candidates
      else or_else (filter (λ c. truthy (get_attr (obj s c).attrs (codes "is_definition"))) foreign)
          foreign

  -- `_filter_library`
  pub filter_library : LinkState nx → List Text → Option Text → Text → List Text
  unfolding or_else referrer_library in_library
  filter_library s candidates none src_id = candidates
  filter_library s candidates (some library) src_id =
      let wanted = if library == vhdl_default_library then referrer_library s src_id else library in
      if leb (length candidates) 1
      then candidates
      else or_else (filter (λ c. in_library wanted (obj s c)) candidates) candidates

  -- One candidate: certain in the referrer's own file, a unique match elsewhere.
  pub one_candidate : LinkState nx → Text → Text → Scored
  unfolding file_of
  one_candidate s src_id c = (
    c ∷ [],
    if (obj s c).file == file_of s src_id then confidence_resolved else confidence_unique_match,
  )

  -- Among several, the only one that no undecided branch holds.
  pub by_condition : LinkState nx → Text → List Text → List Text → Scored
  unfolding one_candidate
  by_condition s src_id candidates (c ∷ []) = one_candidate s src_id c
  by_condition s src_id candidates selected = (candidates, confidence_ambiguous)

  pub unconditional : LinkState nx → List Text → List Text
  unconditional s candidates =
      filter (λ c. not (truthy (get_attr (obj s c).attrs (codes "conditional")))) candidates

  -- By the candidates of the referrer's own file.
  pub by_file : LinkState nx → Text → List Text → List Text → Scored
  unfolding by_condition or_else unconditional
  by_file s src_id candidates (c ∷ []) = (c ∷ [], confidence_resolved)
  by_file s src_id candidates local =
      by_condition s src_id candidates (unconditional s (or_else local candidates))

  pub local_candidates : LinkState nx → Text → List Text → List Text
  unfolding file_of
  local_candidates s src_id candidates = filter (λ c. (obj s c).file == file_of s src_id) candidates

  -- `_score`
  pub score : LinkState nx → List Text → Text → Scored
  unfolding one_candidate by_file local_candidates
  score s (c ∷ []) src_id = one_candidate s src_id c
  score s candidates src_id = by_file s src_id candidates (local_candidates s src_id candidates)

  -- The confidence of a match across languages.
  pub cross_scored : List Text → Option Scored
  cross_scored [] = none
  cross_scored (c ∷ []) = some (c ∷ [], confidence_unique_match)
  cross_scored (c ∷ d ∷ cs) = some (c ∷ d ∷ cs, confidence_ambiguous)

  -- `_cross_language`
  pub cross_language : LinkState nx → List NodeKind → Text → Option Scored
  unfolding get_list cross_scored
  cross_language s kinds name =
      cross_scored (flat_map (λ kind. get_list (lookup s.definitions_ci (kind, lower name))) kinds)

  -- The definitions of the name among the kinds.
  pub named : LinkState nx → List NodeKind → Text → List Text
  unfolding get_list
  named s kinds name = flat_map (λ kind. get_list (lookup s.definitions (kind, name))) kinds

  -- The cross-language match, or a stub of an entity.
  cross_or_entity : Option Scored → Text → LinkState nx → Scored × LinkState nx
  cross_or_entity (some scored) name s = (scored, s)
  cross_or_entity none name s =
      let (stub, s') = ensure_stub nx lower str NodeKind.entity name name s in
      ((stub ∷ [], confidence_resolved), s')

  entity_among : List Text → Text → UnresolvedRef → LinkState nx → Scored × LinkState nx
  unfolding score cross_or_entity cross_language
  entity_among [] name ref s = cross_or_entity (cross_language s sv_instantiable name) name s
  entity_among (c ∷ cs) name ref s = (score s (c ∷ cs) ref.src_id, s)

  -- `_resolve_entity_name`
  pub resolve_entity_name :
      Text → UnresolvedRef → Option Text → LinkState nx → Option (Scored × LinkState nx)
  unfolding entity_among filter_library named checked
  resolve_entity_name name ref library s =
      let candidates = named s (NodeKind.entity ∷ []) name in
      checked nx lower str s candidates
        (some (entity_among (filter_library s candidates library ref.src_id) name ref s))

  -- The result of a call with the attributes for the edge.
  pub with_attrs : Attrs → Option (Scored × LinkState nx) → Option ((Scored × Attrs) × LinkState nx)
  with_attrs extra none = none
  with_attrs extra (some (scored, s)) = some ((scored, extra), s)

  -- A configuration of one entity resolves to the entity; else the edge goes to the configuration.
  of_configuration :
      Text → Node → UnresolvedRef → LinkState nx → Option ((Scored × Attrs) × LinkState nx)
  unfolding resolve_entity_name text_attr with_attrs
  of_configuration c cfg ref s =
      let through =
        resolve_entity_name (str (get_attr cfg.attrs (codes "of_entity"))) ref
          (text_attr cfg.attrs (codes "library")) s in
      if truthy (get_attr cfg.attrs (codes "of_entity"))
      then with_attrs ((codes "via_configuration", AttrValue.str cfg.id) ∷ []) through
      else some (((c ∷ [], confidence_resolved), []), s)

  among_configurations :
      List Text → UnresolvedRef → LinkState nx → Option ((Scored × Attrs) × LinkState nx)
  unfolding of_configuration
  among_configurations [] ref s =
      let (stub, s') =
        ensure_stub nx lower str NodeKind.configuration ref.target_name ref.target_name s in
      some (((stub ∷ [], confidence_resolved), []), s')
  among_configurations (c ∷ []) ref s = of_configuration c (obj s c) ref s
  among_configurations (c ∷ d ∷ cs) ref s = some (((c ∷ d ∷ cs, confidence_ambiguous), []), s)

  -- The configurations that are looked at: a single one, and several only to find a library.
  configurations_read : List Text → Option Text → List Text
  configurations_read (c ∷ []) library = c ∷ []
  configurations_read cs none = []
  configurations_read cs (some library) = cs

  -- `_resolve_via_configuration`
  pub resolve_via_configuration :
      UnresolvedRef → Option Text → LinkState nx → Option ((Scored × Attrs) × LinkState nx)
  unfolding among_configurations filter_library named configurations_read checked
  resolve_via_configuration ref library s =
      let configs = named s (NodeKind.configuration ∷ []) ref.target_name in
      checked nx lower str s (configurations_read configs library)
        (among_configurations (filter_library s configs library ref.src_id) ref s)

  -- `_record_binding`
  pub record_binding : UnresolvedRef → LinkState nx → LinkState nx
  unfolding get_list
  record_binding ref s =
      let entity = get_attr ref.attrs (codes "of_entity") in
      let component = get_attr ref.attrs (codes "component") in
      let block : Option Text = elim (get_attr ref.attrs (codes "block")) [
        | AttrValue.null ↦ none
        | v ↦ some (str v)
      ] in
      let key : (Text × Option Text) × Text = ((str entity, block), str component) in
      let row : Binding = record {
        instances = elim (lookup ref.attrs (codes "instances")) [
          | none ↦ AttrValue.str (codes "all")
          | some v ↦ v
        ];
        target = ref.target_name;
        library = get_attr ref.attrs (codes "library");
        architecture = get_attr ref.attrs (codes "architecture");
        config = ref.src_id;
      } in
      if truthy entity && truthy component
      then record s {
        bindings = insert s.bindings key (get_list (lookup s.bindings key) ++ row ∷ []);
      }
      else s
