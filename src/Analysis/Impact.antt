-- ===== src/Analysis/Impact.antt =====
-- The impact radius of a change: `_enclosing_unit`, `_impact_dependents` and `impact_radius` of
-- src/hdl_kgraph/graph/analysis.py.
pub mod Waves
pub mod Ends
pub mod Invariant
pub mod Exact
use hdl_kgraph.Base.{
  ℕ, zero, suc, Bool, true, false, ◌||◌, ◌&&◌, Option, none, some, List, [], ◌∷◌, ◌++◌, map, Text,
  contains, filter, flat_map, length, nat_eq, list_eq, ◌==◌, if◌then◌else◌, leb, ltb, sort_by,
  text_leb,
}
use hdl_kgraph.Schema.{Edge, NodeKind, node_kind_eq, EdgeKind, edge_kind_eq}
use hdl_kgraph.Schema.NodeKindEnum
use hdl_kgraph.Graph.{MultiDiGraph, data_of}
use hdl_kgraph.Climb.{nearest}

-- `IMPACT_UNIT_KINDS`
unfoldable pub is_impact_unit : NodeKind → Bool
is_impact_unit NodeKind.module_kind = true
is_impact_unit NodeKind.interface = true
is_impact_unit NodeKind.program = true
is_impact_unit NodeKind.primitive = true
is_impact_unit NodeKind.package_kind = true
is_impact_unit NodeKind.checker = true
is_impact_unit NodeKind.class = true
is_impact_unit NodeKind.entity = true
is_impact_unit NodeKind.architecture = true
is_impact_unit NodeKind.vhdl_package = true
is_impact_unit NodeKind.package_body = true
is_impact_unit NodeKind.configuration = true
is_impact_unit _ = false

pub record ImpactRecord : Type 0 where
  pub node_id : Text
  pub kind : NodeKind
  pub name : Text
  pub file : Text
  pub line : ℕ
  pub depth : ℕ
  pub via : EdgeKind

-- A dependent with the kind of the edge that pulls it in; `none` for a node in no unit.
abbrev pub Dependent : Type 0
Dependent = Option Text × EdgeKind

-- By the depth, the kind's text, the name and the id.
record_leb : ImpactRecord → ImpactRecord → Bool
record_leb a b =
    if a.depth == b.depth
    then (if NodeKindEnum.value a.kind == NodeKindEnum.value b.kind
        then (if a.name == b.name then text_leb a.node_id b.node_id else text_leb a.name b.name)
        else text_leb (NodeKindEnum.value a.kind) (NodeKindEnum.value b.kind))
    else leb a.depth b.depth

first_src : List Edge → Option Text
first_src [] = none
first_src (e ∷ es) = some e.src

-- The state of the loop over the frontier.
pub record Wave : Type 0 where
  pub visited : List Text
  pub records : List ImpactRecord
  pub next_frontier : List Text

module _ (nx : MultiDiGraph) (g : nx.Graph) where
  abbrev kind_of : Text → NodeKind
  kind_of id = (data_of nx g id).kind

  pub in_unit : Text → Bool
  unfolding is_impact_unit
  in_unit id = is_impact_unit (kind_of id)

  -- `parents[0] if parents else None`
  pub declarer : Text → Option Text
  unfolding first_src
  declarer id = first_src (filter (λ e. e.kind == EdgeKind.declares) (nx.in_edges g id))

  -- `_enclosing_unit`: no more nodes have a declarer than there are edges.
  pub enclosing_unit : Text → Option Text
  unfolding in_unit declarer
  enclosing_unit node_id = nearest in_unit declarer (length (map (λ e. e.dst) (nx.edges g))) node_id

  includers : Edge → List Dependent
  includers e = if e.kind == EdgeKind.includes then (some e.src, EdgeKind.includes) ∷ [] else []

  macro_dependent : Edge → List Dependent
  macro_dependent e =
      if e.kind == EdgeKind.uses_macro then (some e.src, EdgeKind.uses_macro) ∷ [] else []

  of_file : Edge → List Dependent
  unfolding macro_dependent is_impact_unit
  of_file e =
      if e.kind == EdgeKind.defines_macro
      then flat_map macro_dependent (nx.in_edges g e.dst)
      else if e.kind == EdgeKind.declares && is_impact_unit (kind_of e.dst)
      then (some e.dst, EdgeKind.declares) ∷ []
      else []

  of_unit : Edge → List Dependent
  unfolding enclosing_unit
  of_unit e =
      if e.kind == EdgeKind.instantiates
        || (e.kind == EdgeKind.imports
            || (e.kind == EdgeKind.uses_package || e.kind == EdgeKind.binds))
      then (enclosing_unit e.src, e.kind) ∷ []
      else if e.kind == EdgeKind.extends || e.kind == EdgeKind.implements
      then (some e.src, e.kind) ∷ []
      else []

  implemented : Edge → List Dependent
  implemented e =
      if e.kind == EdgeKind.implements then (some e.dst, EdgeKind.implements) ∷ [] else []

  -- `_impact_dependents`
  pub impact_dependents : Text → List Dependent
  unfolding includers of_file of_unit implemented
  impact_dependents node_id =
      if kind_of node_id == NodeKind.file
      then flat_map includers (nx.in_edges g node_id) ++ flat_map of_file (nx.out_edges g node_id)
      else flat_map of_unit (nx.in_edges g node_id)
        ++ (if kind_of node_id == NodeKind.architecture
            then flat_map implemented (nx.out_edges g node_id)
            else [])

  record_at : ℕ → EdgeKind → Text → ImpactRecord
  record_at depth via dep = record {
    node_id = dep;
    kind = (data_of nx g dep).kind;
    name = (data_of nx g dep).name;
    file = (data_of nx g dep).file;
    line = (data_of nx g dep).line_span.0;
    depth = depth;
    via = via;
  }

  -- The body of the inner loop.
  note : ℕ → Dependent → Wave → Wave
  unfolding record_at contains
  note depth (none, via) w = w
  note depth (some dep, via) w = if contains w.visited dep then w else record {
    visited = dep ∷ w.visited;
    records = w.records ++ record_at depth via dep ∷ [];
    next_frontier = w.next_frontier ++ dep ∷ [];
  }

  pub note_all : ℕ → List Dependent → Wave → Wave
  unfolding note
  note_all depth [] w = w
  note_all depth (d ∷ ds) w = note_all depth ds (note depth d w)

  -- `for node_id in frontier`
  pub sweep : ℕ → List Text → Wave → Wave
  unfolding note_all impact_dependents
  sweep depth [] w = w
  sweep depth (n ∷ ns) w = sweep depth ns (note_all depth (impact_dependents n) w)

  -- `while frontier and …` on fuel; `none` means that the fuel ran out. A `max_depth` of 0 is no limit.
  pub waves : ℕ → ℕ → ℕ → List Text → List Text → List ImpactRecord → Option (List ImpactRecord)
  unfolding sweep
  waves fuel max_depth depth [] visited records = some records
  waves zero max_depth depth (n ∷ ns) visited records = none
  waves (suc fuel) max_depth depth (n ∷ ns) visited records =
      let w =
        sweep (suc depth) (n ∷ ns)
          (record { visited = visited; records = records; next_frontier = [] }) in
      let rest = waves fuel max_depth (suc depth) w.next_frontier w.visited w.records in
      if max_depth == 0 || ltb depth max_depth then rest else some records

  -- The ends of the edges: every dependent is one of them.
  pub ends : List Text
  ends = map (λ e. e.src) (nx.edges g) ++ map (λ e. e.dst) (nx.edges g)

  sorted_records : Option (List ImpactRecord) → Option (List ImpactRecord)
  unfolding record_leb sort_by
  sorted_records none = none
  sorted_records (some records) = some (sort_by record_leb records)

  -- `impact_radius`, with a wave for each end of an edge and one more.
  pub impact_radius : List Text → ℕ → Option (List ImpactRecord)
  unfolding sorted_records waves ends
  impact_radius seed_ids max_depth =
      sorted_records (waves (suc (length ends)) max_depth 0 seed_ids seed_ids [])
