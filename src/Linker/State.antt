-- ===== src/Linker/State.antt =====
-- The fields of `_Linker` of src/hdl_kgraph/graph/builder.py and the records they hold.
use hdl_kgraph.Base.{ℕ, Option, List, Text, Dict}
use hdl_kgraph.Schema.{Node, NodeKind, EdgeKind, AttrValue}
use hdl_kgraph.Graph.{MultiDiGraph}
use hdl_kgraph.Linker.Kinds.{RefRecord}

-- A row of `bindings`, what a configuration says of a component.
pub record Binding : Type 0 where
  pub instances : AttrValue
  pub target : Text
  pub library : AttrValue
  pub architecture : AttrValue
  pub config : Text

-- The identity of a local edge.
abbrev pub LocalKey : Type 0
LocalKey = (Text × Text) × EdgeKind

-- The identity of an emitted edge: its ends, kind and confidence, and its attributes as sorted text.
abbrev pub EmittedKey : Type 0
EmittedKey = (((Text × Text) × EdgeKind) × ℕ) × List (Text × Text)

-- What the warning about a dangling end is built from: the end, the kind, the other end, the file.
pub record Dangling : Type 0 where
  pub node_id : Text
  pub edge_kind : EdgeKind
  pub other : Text
  pub source : Text

-- The fields of `_Linker`, with `self.graph` of the given graph type.
pub record LinkState (nx : MultiDiGraph) : Type 0 where
  pub graph : nx.Graph
  pub definitions : Dict (NodeKind × Text) (List Text)
  pub definitions_ci : Dict (NodeKind × Text) (List Text)
  pub children : Dict Text (List Node)
  pub parent : Dict Text Text
  pub node_file : Dict Text Text
  pub node_obj : Dict Text Node
  pub bindings : Dict ((Text × Option Text) × Text) (List Binding)
  pub emitted : List EmittedKey
  pub scope_indices : Dict Text (Dict Text (List Node))
  pub warnings : List Dangling
  pub ref_records : List RefRecord
