-- ===== src/Analysis/Samples.antt =====
-- The analyses on a small design: a module that instantiates another, and one that instantiates
-- itself.
use hdl_kgraph.Base.{
  inl, inr, refl, sym, subst, list_beq, ℕ, ◌≡◌, ◌↔◌, true, false, some, List, [], ◌∷◌, Text, codes,
  In, IsSorted, contains, nat_eq, list_eq, All, none,
}
use hdl_kgraph.Schema.{Node, Edge, NodeKind, node_kind_eq, EdgeKind, Language}
use hdl_kgraph.Graph.Memory.{memory, memory-Laws}
use hdl_kgraph.Climb.{Climbs}
use hdl_kgraph.Analysis.Units.{hierarchy_root_kinds, is_stub, by_qualified_name, find_top_modules}
use hdl_kgraph.Analysis.Units.Tops.{NotInstantiated, find_top_modules_lem}
use hdl_kgraph.Analysis.Impact.{ImpactRecord, in_unit, declarer, enclosing_unit, impact_radius}
use hdl_kgraph.Analysis.Hierarchy.{hierarchy_tree}
use hdl_kgraph.Analysis.Hierarchy.Bounded.{IsBounded, hierarchy_tree-IsBounded}
use hdl_kgraph.Analysis.Queries.{DriverRecord, signal_drivers}
use hdl_kgraph.Analysis.Queries.Drivers.{HasEnds, IsDriver, signal_drivers_iff}
use hdl_kgraph.Analysis.Impact.Waves.{ids}
use hdl_kgraph.Analysis.Impact.Ends.{enclosing_unit_lem}
use hdl_kgraph.Analysis.Impact.Invariant.{Reached}
use hdl_kgraph.Analysis.Impact.Exact.{impact_radius_lem}

abbrev node_of : NodeKind → Text → Node
node_of kind name = record {
  id = name;
  kind = kind;
  name = name;
  qualified_name = name;
  file = codes "a.sv";
  line_span = (1, 2);
  language = Language.systemverilog;
  attrs = [];
}

abbrev edge_of : EdgeKind → Text → Text → Edge
edge_of kind src dst = record { src = src; dst = dst; kind = kind; confidence = 10; attrs = [] }

abbrev with_nodes : List Node → memory.Graph → memory.Graph
with_nodes [] g = g
with_nodes (x ∷ xs) g = with_nodes xs (memory.add_node g x)

abbrev with_edges : List Edge → memory.Graph → memory.Graph
with_edges [] g = g
with_edges (e ∷ es) g = with_edges es (memory.add_edge g e)

abbrev design : memory.Graph
design =
    with_edges
      (edge_of EdgeKind.declares (codes "top") (codes "u1")
        ∷ edge_of EdgeKind.instantiates (codes "u1") (codes "fifo")
        ∷ edge_of EdgeKind.declares (codes "ring") (codes "u2")
        ∷ edge_of EdgeKind.instantiates (codes "u2") (codes "ring")
        ∷ edge_of EdgeKind.declares (codes "top") (codes "q")
        ∷ edge_of EdgeKind.drives (codes "p1") (codes "q")
        ∷ [])
      (with_nodes
        (node_of NodeKind.module_kind (codes "top")
          ∷ node_of NodeKind.instance_kind (codes "u1")
          ∷ node_of NodeKind.module_kind (codes "fifo")
          ∷ node_of NodeKind.instance_kind (codes "u2")
          ∷ node_of NodeKind.module_kind (codes "ring")
          ∷ node_of NodeKind.signal (codes "q")
          ∷ node_of NodeKind.process (codes "p1")
          ∷ [])
        memory.empty)

abbrev same_case : Text → Text
same_case t = t

find_top_modules_example :
    (In (codes "top") (find_top_modules memory same_case design) ↔ (
      ((x : Node) × In x (memory.nodes design)
        × (x.id ≡ codes "top")
        × (contains hierarchy_root_kinds x.kind ≡ true))
      × (is_stub memory same_case design (codes "top") ≡ false)
      × NotInstantiated memory memory-Laws same_case design (codes "top")))
    × IsSorted
        (by_qualified_name memory same_case design)
        (find_top_modules memory same_case design)
find_top_modules_example = find_top_modules_lem memory memory-Laws same_case design (codes "top")

enclosing_unit_example : (enclosing_unit memory design (codes "u1") ≡ some (codes "top")) ↔ (
    (n : ℕ) × Climbs (in_unit memory design) (declarer memory design) (codes "top") n (codes "u1"))
enclosing_unit_example = enclosing_unit_lem memory memory-Laws design (codes "u1") (codes "top")

abbrev changed : List Text
changed = codes "fifo" ∷ []

impact_radius_example :
    (rs : List ImpactRecord) × (impact_radius memory design changed 0 ≡ some rs)
    × (In (codes "top") (ids rs) ↔ (
        ((d : ℕ) × Reached memory memory-Laws design changed d (codes "top"))
        × (contains changed (codes "top") ≡ false)))
    × All (λ r. Reached memory memory-Laws design changed r.depth r.node_id) rs
impact_radius_example = impact_radius_lem memory memory-Laws design changed (codes "top")

hierarchy_tree-IsBounded_example :
    IsBounded 3 [] (hierarchy_tree memory same_case design (codes "ring") 3)
hierarchy_tree-IsBounded_example = hierarchy_tree-IsBounded memory same_case design (codes "ring") 3

abbrev a_driver : DriverRecord
a_driver = record {
  signal_id = codes "q";
  signal = codes "q";
  unit_name = some (codes "top");
  site_id = codes "p1";
  site = codes "p1";
  site_kind = codes "process";
  file = codes "a.sv";
  line = 1;
  confidence = 10;
}

-- A process that drives a signal of a module.
abbrev driven : memory.Graph
driven =
    with_edges
      (edge_of EdgeKind.declares (codes "top") (codes "q")
        ∷ edge_of EdgeKind.drives (codes "p1") (codes "q")
        ∷ [])
      (with_nodes
        (node_of NodeKind.module_kind (codes "top")
          ∷ node_of NodeKind.signal (codes "q")
          ∷ node_of NodeKind.process (codes "p1")
          ∷ [])
        memory.empty)

abbrev BothStored : Edge → Type 0
BothStored e =
    (x : Node) × (memory.node driven e.src ≡ some x)
    × (y : Node) × (memory.node driven e.dst ≡ some y)

driven-HasEnds : HasEnds memory memory-Laws same_case driven
unfolding memory list_beq
driven-HasEnds e (inl q) =
    subst BothStored (sym q)
      (node_of NodeKind.module_kind (codes "top"), refl, node_of NodeKind.signal (codes "q"), refl)
driven-HasEnds e (inr (inl q)) =
    subst BothStored (sym q)
      (node_of NodeKind.process (codes "p1"), refl, node_of NodeKind.signal (codes "q"), refl)
driven-HasEnds e (inr (inr bad)) = absurd bad

signal_drivers_example :
    In a_driver (signal_drivers memory same_case driven (codes "q") none false)
    ↔ IsDriver memory memory-Laws same_case driven (codes "q") none false a_driver
signal_drivers_example =
    signal_drivers_iff memory memory-Laws same_case driven driven-HasEnds (codes "q") none false
      a_driver
