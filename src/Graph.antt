-- ===== src/Graph.antt =====
-- The multigraph of networkx behind the operations that the program calls, with what its
-- documentation says of them. The library itself is not in the repository, so every part that
-- reads or builds a graph takes such a record as a parameter.
pub mod Memory
use hdl_kgraph.Base.{
  ◌≡◌, ◌↔◌, ◌⊎◌, Bool, true, false, ◌||◌, Option, some, List, [], Text, In, nat_eq, list_eq, ◌==◌,
  if◌then◌else◌, none, some,
}
use hdl_kgraph.Schema.{Node, Edge, NodeKind, Language}

pub record MultiDiGraph : Type 1 where
  pub Graph : Type 0
  -- `nx.MultiDiGraph()`
  pub empty : Graph
  -- `n in g`
  pub has_node : Graph → Text → Bool
  -- The data set of `g.nodes[n]`: `none` for a node that carries no attributes.
  pub node : Graph → Text → Option Node
  -- The nodes of `g.nodes(data=True)` that carry attributes.
  pub nodes : Graph → List Node
  -- `g.edges(data=True)`
  pub edges : Graph → List Edge
  -- `g.in_edges(n, data=True)` and `g.out_edges(n, data=True)`
  pub in_edges : Graph → Text → List Edge
  pub out_edges : Graph → Text → List Edge
  -- `g.add_node(id, **data)` and `g.add_edge(src, dst, **data)`
  pub add_node : Graph → Node → Graph
  pub add_edge : Graph → Edge → Graph

pub record Laws (nx : MultiDiGraph) : Type 0 where
  pub in_edges_iff :
      (g : nx.Graph) (n : Text) (e : Edge)
      → In e (nx.in_edges g n) ↔ (In e (nx.edges g) × (e.dst ≡ n))
  pub out_edges_iff :
      (g : nx.Graph) (n : Text) (e : Edge)
      → In e (nx.out_edges g n) ↔ (In e (nx.edges g) × (e.src ≡ n))
  -- Every end of an edge is a node.
  pub edge_ends :
      (g : nx.Graph) (e : Edge)
      → In e (nx.edges g)
      → (nx.has_node g e.src ≡ true) × (nx.has_node g e.dst ≡ true)
  pub nodes_iff : (g : nx.Graph) (x : Node) → In x (nx.nodes g) ↔ (nx.node g x.id ≡ some x)
  pub node_id : (g : nx.Graph) (n : Text) (x : Node) → nx.node g n ≡ some x → x.id ≡ n
  pub has_node-empty : (n : Text) → nx.has_node nx.empty n ≡ false
  pub node-empty : (n : Text) → nx.node nx.empty n ≡ none
  pub edges-empty : nx.edges nx.empty ≡ []
  pub has_node-add_node :
      (g : nx.Graph) (x : Node) (n : Text)
      → nx.has_node (nx.add_node g x) n ≡ (x.id == n || nx.has_node g n)
  pub node-add_node :
      (g : nx.Graph) (x : Node) (n : Text)
      → nx.node (nx.add_node g x) n ≡ (if x.id == n then some x else nx.node g n)
  pub edges-add_node : (g : nx.Graph) (x : Node) → nx.edges (nx.add_node g x) ≡ nx.edges g
  -- An edge brings in the ends that are missing, with no attributes.
  pub has_node-add_edge :
      (g : nx.Graph) (e : Edge) (n : Text)
      → nx.has_node (nx.add_edge g e) n ≡ (e.src == n || (e.dst == n || nx.has_node g n))
  pub node-add_edge :
      (g : nx.Graph) (e : Edge) (n : Text) → nx.node (nx.add_edge g e) n ≡ nx.node g n
  pub edges-add_edge :
      (g : nx.Graph) (e : Edge) (d : Edge)
      → In d (nx.edges (nx.add_edge g e)) ↔ (In d (nx.edges g) ⊎ (d ≡ e))

-- `g.nodes[n]`, the data of a node that carries attributes. Only such nodes are read: the linker
-- leaves no other.
abbrev pub bare : Text → Node
bare n = record {
  id = n;
  kind = NodeKind.signal;
  name = [];
  qualified_name = [];
  file = [];
  line_span = (0, 0);
  language = Language.unknown;
  attrs = [];
}

module _ (nx : MultiDiGraph) where
  unfoldable pub data_of : nx.Graph → Text → Node
  data_of g n = elim (nx.node g n) [ none ↦ bare n | some x ↦ x ]
