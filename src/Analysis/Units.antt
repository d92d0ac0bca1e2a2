-- ===== src/Analysis/Units.antt =====
-- Design units and their instances: `find_top_modules`, `resolve_unit`, `instances_of`, the counts and
-- `unresolved_stubs` of src/hdl_kgraph/graph/analysis.py.
pub mod Tops
use hdl_kgraph.Base.{
  ℕ, suc, Bool, true, false, not, ◌||◌, ◌&&◌, Option, none, some, List, [], ◌∷◌, ◌++◌, map, Text,
  codes, Dict, lookup, insert, contains, filter, flat_map, length, nat_eq, list_eq, ◌==◌,
  if◌then◌else◌, leb, ltb, sort_by, sorted, text_leb,
}
use hdl_kgraph.Schema.{
  Node, Edge, NodeKind, node_kind_eq, EdgeKind, edge_kind_eq, Language, language_eq, get_attr,
  truthy,
}
use hdl_kgraph.Schema.NodeKindEnum
use hdl_kgraph.Schema.EdgeKindEnum
use hdl_kgraph.Graph.{MultiDiGraph, data_of}

-- `_HIERARCHY_ROOT_KINDS`
abbrev pub hierarchy_root_kinds : List NodeKind
hierarchy_root_kinds = NodeKind.module_kind ∷ NodeKind.entity ∷ []

-- `INSTANTIABLE_KINDS`
abbrev pub instantiable_kinds : List NodeKind
instantiable_kinds =
    NodeKind.module_kind ∷ NodeKind.interface ∷ NodeKind.program ∷ NodeKind.primitive
    ∷ NodeKind.entity ∷ []

-- `seen = set(); …`: each text once, in the order of the first occurrence.
once : List Text → List Text → List Text
once seen [] = []
once seen (t ∷ ts) =
    let skipped = once seen ts in
    let kept = once (t ∷ seen) ts in if contains seen t then skipped else t ∷ kept

-- `Counter(values)`
pub count_all : List Text → Dict Text ℕ → Dict Text ℕ
count_all [] counts = counts
count_all (t ∷ ts) counts =
    count_all ts (insert counts t (elim (lookup counts t) [ none ↦ 1 | some n ↦ suc n ]))

-- An instantiation site.
pub record InstanceRecord : Type 0 where
  pub instance_id : Text
  pub instance_name : Text
  pub qualified_name : Text
  pub file : Text
  pub line : ℕ
  pub confidence : ℕ
  pub target_unresolved : Bool

-- By the file, then by the line.
site_leb : InstanceRecord → InstanceRecord → Bool
site_leb a b = if a.file == b.file then leb a.line b.line else text_leb a.file b.file

pub record StubRecord : Type 0 where
  pub id : Text
  pub kind : NodeKind
  pub name : Text
  pub referrers : List Text

-- `lower` is Python's.
module _ (nx : MultiDiGraph) (lower : Text → Text) (g : nx.Graph) where
  -- `_is_stub`
  pub is_stub : Text → Bool
  is_stub id = truthy (get_attr (data_of nx g id).attrs (codes "unresolved"))

  -- `_edges_of_kind(…, reverse=True)` and with `reverse=False`
  pub in_of_kind : Text → EdgeKind → List Edge
  in_of_kind id kind = filter (λ e. e.kind == kind) (nx.in_edges g id)

  pub out_of_kind : Text → EdgeKind → List Edge
  out_of_kind id kind = filter (λ e. e.kind == kind) (nx.out_edges g id)

  is_top : Node → Bool
  unfolding is_stub in_of_kind
  is_top x =
      contains hierarchy_root_kinds x.kind
      && (not (is_stub x.id) && length (in_of_kind x.id EdgeKind.instantiates) == 0)

  pub by_qualified_name : Text → Text → Bool
  by_qualified_name a b = text_leb (data_of nx g a).qualified_name (data_of nx g b).qualified_name

  -- `find_top_modules`
  pub find_top_modules : List Text
  unfolding is_top by_qualified_name sort_by
  find_top_modules = sort_by by_qualified_name (map (λ x. x.id) (filter is_top (nx.nodes g)))

  -- `_match_name`
  pub match_name : Node → Text → Bool
  match_name x wanted = x.name == (if x.language == Language.vhdl then lower wanted else wanted)

  -- `resolve_unit`
  pub resolve_unit : Text → List NodeKind → List Text
  unfolding match_name is_stub contains
  resolve_unit name kinds =
      map (λ x. x.id)
        (filter (λ x. contains kinds x.kind && (match_name x name && not (is_stub x.id)))
          (nx.nodes g))

  -- `instantiation_count`
  pub instantiation_count : Text → ℕ
  unfolding in_of_kind
  instantiation_count unit_id = length (in_of_kind unit_id EdgeKind.instantiates)

  site_of : Node → Edge → InstanceRecord
  unfolding is_stub
  site_of target e = record {
    instance_id = e.src;
    instance_name = (data_of nx g e.src).name;
    qualified_name = (data_of nx g e.src).qualified_name;
    file = (data_of nx g e.src).file;
    line = (data_of nx g e.src).line_span.0;
    confidence = e.confidence;
    target_unresolved = is_stub target.id;
  }

  -- `instances_of`
  pub instances_of : Text → List InstanceRecord
  unfolding site_of site_leb sort_by in_of_kind match_name contains
  instances_of name = sort_by site_leb (
      flat_map (λ x. map (site_of x) (in_of_kind x.id EdgeKind.instantiates))
        (filter (λ x. contains instantiable_kinds x.kind && match_name x name) (nx.nodes g)))

  -- `node_kind_histogram` and `edge_kind_histogram`
  pub node_kind_histogram : Dict Text ℕ
  unfolding count_all
  node_kind_histogram = count_all (map (λ x. NodeKindEnum.value x.kind) (nx.nodes g)) []

  pub edge_kind_histogram : Dict Text ℕ
  unfolding count_all
  edge_kind_histogram = count_all (map (λ e. EdgeKindEnum.value e.kind) (nx.edges g)) []

  stub_record : Node → StubRecord
  unfolding once sorted
  stub_record x = record {
    id = x.id;
    kind = x.kind;
    name = x.qualified_name;
    referrers = sorted (
        once [] (
          map (λ e. e.src) (filter (λ e. not (e.kind == EdgeKind.declares)) (nx.in_edges g x.id))));
  }

  -- `unresolved_stubs`
  pub unresolved_stubs : List StubRecord
  unfolding stub_record sort_by
  unresolved_stubs =
      sort_by (λ a b. text_leb a.id b.id)
        (map stub_record
          (filter (λ x. truthy (get_attr x.attrs (codes "unresolved"))) (nx.nodes g)))
