-- ===== src/Analysis/Queries.antt =====
-- `_signal_unit_names`, `signal_drivers` and `search_nodes` of src/hdl_kgraph/graph/analysis.py.
pub mod Nets
pub mod Drivers
use hdl_kgraph.Base.{
  ℕ, Bool, true, false, not, ◌||◌, ◌&&◌, Option, none, some, List, [], ◌∷◌, ◌++◌, map, Text, codes,
  contains, filter, flat_map, has_char, nat_eq, list_eq, ◌==◌, if◌then◌else◌, leb, sort_by,
  text_leb,
}
use hdl_kgraph.Schema.{
  Node, Edge, NodeKind, node_kind_eq, EdgeKind, edge_kind_eq, Language, language_eq, AttrValue,
  get_attr, truthy,
}
use hdl_kgraph.Schema.NodeKindEnum
use hdl_kgraph.Graph.{MultiDiGraph, data_of}
use hdl_kgraph.Analysis.Impact.{enclosing_unit}

pub record DriverRecord : Type 0 where
  pub signal_id : Text
  pub signal : Text
  pub unit_name : Option Text
  pub site_id : Text
  pub site : Text
  pub site_kind : Text
  pub file : Text
  pub line : ℕ
  pub confidence : ℕ

-- By the signal, the file, the line and the site.
driver_leb : DriverRecord → DriverRecord → Bool
driver_leb a b =
    if a.signal == b.signal
    then (if a.file == b.file
        then (if a.line == b.line then text_leb a.site b.site else leb a.line b.line)
        else text_leb a.file b.file)
    else text_leb a.signal b.signal

pub record SearchRecord : Type 0 where
  pub id : Text
  pub kind : NodeKind
  pub name : Text
  pub qualified_name : Text
  pub file : Text
  pub line : ℕ
  pub language : Language
  pub unresolved : Bool

-- By the kind's text, the qualified name and the id.
search_leb : SearchRecord → SearchRecord → Bool
search_leb a b =
    if NodeKindEnum.value a.kind == NodeKindEnum.value b.kind
    then (if a.qualified_name == b.qualified_name
        then text_leb a.id b.id
        else text_leb a.qualified_name b.qualified_name)
    else text_leb (NodeKindEnum.value a.kind) (NodeKindEnum.value b.kind)

-- An empty text counts as none.
nonempty : Option Text → Option Text
nonempty none = none
nonempty (some t) = if t == [] then none else some t

as_set : Option Text → List Text
as_set none = []
as_set (some t) = t ∷ []

-- A filter that is not given lets everything pass.
passes : Option Bool → Bool
passes none = true
passes (some b) = b

-- `lower` is Python's, and `fnmatchcase` that of its `fnmatch`.
module _ (nx : MultiDiGraph) (lower : Text → Text) (g : nx.Graph) where
  name_of : Option Text → Option Text
  name_of none = none
  name_of (some u) = some (data_of nx g u).name

  implemented_names : Option Text → List Text
  implemented_names none = []
  implemented_names (some u) =
      if (data_of nx g u).kind == NodeKind.architecture
      then map (λ e. (data_of nx g e.dst).name)
          (filter (λ e. e.kind == EdgeKind.implements) (nx.out_edges g u))
      else []

  -- `_signal_unit_names`
  pub signal_unit_names : Text → Option Text × List Text
  unfolding nonempty as_set name_of implemented_names
  signal_unit_names node_id =
      let unit_id = nonempty (enclosing_unit nx g node_id) in
      let unit_name = name_of unit_id in
      (unit_name, as_set (nonempty unit_name) ++ implemented_names unit_id)

  folded : Node → Text → Text
  folded x t = if x.language == Language.vhdl then lower t else t

  -- The node is a net of the name, in a unit of the given name.
  pub is_wanted : Text → Option Text → Node → Bool
  unfolding folded signal_unit_names contains passes
  is_wanted signal unit x =
      let names = (signal_unit_names x.id).1 in
      (x.kind == NodeKind.signal || x.kind == NodeKind.port)
      && (x.name == folded x signal
          && passes (elim unit [ none ↦ none | some u ↦ some (contains names (folded x u)) ]))

  pub driver_record : Node → Edge → DriverRecord
  unfolding signal_unit_names
  driver_record x e =
      let site = data_of nx g e.src in
      record {
        signal_id = x.id;
        signal = x.qualified_name;
        unit_name = (signal_unit_names x.id).0;
        site_id = e.src;
        site = site.qualified_name;
        site_kind = NodeKindEnum.value site.kind;
        file = site.file;
        line = elim (get_attr e.attrs (codes "line_span")) [
          | AttrValue.span lines ↦ lines.0
          | v ↦ site.line_span.0
        ];
        confidence = e.confidence;
      }

  pub flow_kind : Bool → EdgeKind
  flow_kind readers = if readers then EdgeKind.reads else EdgeKind.drives

  records_of : EdgeKind → Node → List DriverRecord
  unfolding driver_record
  records_of kind x = map (driver_record x) (filter (λ e. e.kind == kind) (nx.in_edges g x.id))

  -- `signal_drivers`
  pub signal_drivers : Text → Option Text → Bool → List DriverRecord
  unfolding is_wanted records_of driver_leb flow_kind sort_by
  signal_drivers signal unit readers =
      sort_by driver_leb
        (flat_map (records_of (flow_kind readers)) (filter (is_wanted signal unit) (nx.nodes g)))

  module _ (fnmatchcase : Text → Text → Bool) where
    -- The name matches, or the qualified name does where the pattern has a dot.
    matches_name : Text → Node → Bool
    unfolding folded
    matches_name pattern x =
        fnmatchcase (folded x x.name) (folded x pattern)
        || (has_char b'.' pattern && fnmatchcase x.qualified_name pattern)

    is_found : Text → Option (List NodeKind) → Option Text → Node → Bool
    unfolding matches_name passes contains
    is_found pattern kinds file x =
        passes (elim kinds [ none ↦ none | some ks ↦ some (contains ks x.kind) ])
        && (passes (elim file [ none ↦ none | some f ↦ some (fnmatchcase x.file f) ])
            && matches_name pattern x)

    search_record : Node → SearchRecord
    search_record x = record {
      id = x.id;
      kind = x.kind;
      name = x.name;
      qualified_name = x.qualified_name;
      file = x.file;
      line = x.line_span.0;
      language = x.language;
      unresolved = truthy (get_attr x.attrs (codes "unresolved"));
    }

    -- `search_nodes`
    pub search_nodes : Text → Option (List NodeKind) → Option Text → List SearchRecord
    unfolding is_found search_record search_leb sort_by
    search_nodes pattern kinds file =
        sort_by search_leb (map search_record (filter (is_found pattern kinds file) (nx.nodes g)))
