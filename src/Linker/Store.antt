-- ===== src/Linker/Store.antt =====
-- The operations of `_Linker` of src/hdl_kgraph/graph/builder.py that touch the graph:
-- `__init__`, `_ensure_endpoint`, `_ensure_stub`, `_stub_child`, `_emit_edge` and `_emit`.
pub mod Complete
pub mod Growth
pub mod Indexed
use hdl_kgraph.Base.{
  ℕ, Bool, true, false, not, Option, none, some, List, [], ◌∷◌, ◌++◌, Text, codes, Dict, lookup,
  has_key, insert, contains, any, filter, nat_eq, list_eq, pair_eq, option_eq, ◌==◌, if◌then◌else◌,
  leb, sort_by, text_leb, map, all,
}
use hdl_kgraph.Schema.{
  Node, Edge, NodeKind, node_kind_eq, EdgeKind, edge_kind_eq, Language, AttrValue, Attrs,
  confidence_resolved,
}
use hdl_kgraph.Ids.{parse_node_id, stub_node_id}
use hdl_kgraph.Ir.{UnresolvedRef, FileIr}
use hdl_kgraph.Graph.{MultiDiGraph, bare}
pub use hdl_kgraph.Linker.State.{LinkState, Binding, Dangling, LocalKey, EmittedKey}

-- `d.get(k, ())` of a `defaultdict(list)`.
unfoldable pub get_list {ℓ} : {V : Type ℓ} → Option (List V) → List V
get_list none = []
get_list (some vs) = vs

-- The stub for an end that no parser emitted, by what its id reads as.
unfoldable pub stub_of : Text → Option (NodeKind × Text) → Node
stub_of id none = record {
  id = id;
  kind = NodeKind.signal;
  name = id;
  qualified_name = id;
  file = [];
  line_span = (0, 0);
  language = Language.unknown;
  attrs =
      (codes "unresolved", AttrValue.flag true)
      ∷ (codes "dangling", AttrValue.flag true)
      ∷ (codes "kind_unknown", AttrValue.flag true)
      ∷ [];
}
stub_of id (some (kind, name)) = record {
  id = id;
  kind = kind;
  name = name;
  qualified_name = id;
  file = [];
  line_span = (0, 0);
  language = Language.unknown;
  attrs = (codes "unresolved", AttrValue.flag true) ∷ (codes "dangling", AttrValue.flag true) ∷ [];
}

pub endpoint_stub : Text → Node
unfolding stub_of
endpoint_stub id = stub_of id (parse_node_id id)

-- The stub that stands for an unresolved target.
pub target_stub : NodeKind → Text → Text → Node
target_stub kind qualified name = record {
  id = stub_node_id kind qualified;
  kind = kind;
  name = name;
  qualified_name = qualified;
  file = [];
  line_span = (0, 0);
  language = Language.unknown;
  attrs = (codes "unresolved", AttrValue.flag true) ∷ [];
}

pair_leb : Text × Text → Text × Text → Bool
pair_leb (a, b) (c, d) = if a == c then text_leb b d else text_leb a c

pub not_null : Text × AttrValue → Bool
not_null (k, AttrValue.null) = false
not_null (k, v) = true

pub update : Attrs → Attrs → Attrs
update attrs [] = attrs
update attrs ((k, v) ∷ more) = update (insert attrs k v) more

-- `lower` is Python's, of a text, and `str` of a value of `attrs`.
module _ (nx : MultiDiGraph) (lower : Text → Text) (str : AttrValue → Text) where
  -- `self.node_obj[id]` for each id of the list, ahead of what reads them: `none` is the `KeyError` of
  -- an id that `node_obj` does not have.
  unfoldable pub checked : {A : Type 0} → LinkState nx → List Text → Option A → Option A
  checked s ids o = if all (has_key s.node_obj) ids then o else none

  -- `self.node_obj[id]` of an id that is there: it was checked before, or found there, or just added.
  pub obj_of : LinkState nx → Text → Node
  obj_of s id = elim (lookup s.node_obj id) [ none ↦ bare id | some x ↦ x ]

  -- `_add_node` with the entry of `node_obj` that goes with it.
  pub add_known : Node → LinkState nx → LinkState nx
  add_known x s = record s { graph = nx.add_node s.graph x; node_obj = insert s.node_obj x.id x }

  -- `_ensure_endpoint`
  pub ensure_endpoint : Text → EdgeKind → Text → Text → LinkState nx → LinkState nx
  unfolding endpoint_stub add_known
  ensure_endpoint id kind other source s =
      if has_key s.node_obj id then s else record (add_known (endpoint_stub id) s) {
        warnings =
            s.warnings
            ++ (record { node_id = id; edge_kind = kind; other = other; source = source }) ∷ [];
      }

  -- An edge with both ends ensured.
  pub add_ensured : Edge → Text → LinkState nx → LinkState nx
  unfolding ensure_endpoint
  add_ensured e source s =
      let known =
        ensure_endpoint e.dst e.kind e.src source (ensure_endpoint e.src e.kind e.dst source s) in
      record known { graph = nx.add_edge known.graph e }

  -- The first occurrence of a node wins.
  pub index_node : Text → Node → LinkState nx → LinkState nx
  unfolding add_known get_list
  index_node path x s = if has_key s.node_obj x.id then s else record (add_known x s) {
    node_file = insert s.node_file x.id path;
    definitions =
        insert s.definitions (x.kind, x.name)
          (get_list (lookup s.definitions (x.kind, x.name)) ++ x.id ∷ []);
    definitions_ci =
        insert s.definitions_ci (x.kind, lower x.name)
          (get_list (lookup s.definitions_ci (x.kind, lower x.name)) ++ x.id ∷ []);
  }

  pub index_nodes : Text → List Node → LinkState nx → LinkState nx
  unfolding index_node
  index_nodes path [] s = s
  index_nodes path (x ∷ xs) s = index_nodes path xs (index_node path x s)

  pub index_files : List FileIr → LinkState nx → LinkState nx
  unfolding index_nodes
  index_files [] s = s
  index_files (ir ∷ irs) s = index_files irs (index_nodes ir.path ir.nodes s)

  -- What a declaration edge adds to the children of its source.
  pub note_declared : Edge → LinkState nx → LinkState nx
  unfolding get_list obj_of
  note_declared e s =
      if e.kind == EdgeKind.declares
      then record s {
        children =
            insert s.children e.src (get_list (lookup s.children e.src) ++ obj_of s e.dst ∷ []);
        parent = insert s.parent e.dst e.src;
      }
      else s

  -- The local edges of a file, with the keys seen so far.
  pub add_locals :
      Text → List Edge → List (LocalKey) → LinkState nx → List (LocalKey) × LinkState nx
  unfolding add_ensured note_declared contains
  add_locals path [] seen s = (seen, s)
  add_locals path (e ∷ es) seen s =
      let skipped = add_locals path es seen s in
      let added =
        add_locals path es (seen ++ ((e.src, e.dst), e.kind) ∷ [])
          (note_declared e (add_ensured e path s)) in
      if contains seen ((e.src, e.dst), e.kind) then skipped else added

  pub add_files : List FileIr → List (LocalKey) → LinkState nx → LinkState nx
  unfolding add_locals
  add_files [] seen s = s
  add_files (ir ∷ irs) seen s =
      let (seen', s') = add_locals ir.path ir.local_edges seen s in add_files irs seen' s'

  abbrev pub blank : LinkState nx
  blank = record {
    graph = nx.empty;
    definitions = [];
    definitions_ci = [];
    children = [];
    parent = [];
    node_file = [];
    node_obj = [];
    bindings = [];
    emitted = [];
    scope_indices = [];
    warnings = [];
    ref_records = [];
  }

  -- `_Linker.__init__`
  pub init_linker : List FileIr → LinkState nx
  unfolding index_files add_files
  init_linker file_irs = add_files file_irs [] (index_files file_irs blank)

  -- `_ensure_stub`
  pub ensure_stub : NodeKind → Text → Text → LinkState nx → Text × LinkState nx
  unfolding target_stub add_known
  ensure_stub kind qualified name s =
      let stub_id = stub_node_id kind qualified in
      (
        stub_id,
        if nx.has_node s.graph stub_id then s else add_known (target_stub kind qualified name) s,
      )

  -- `graph.has_edge(u, v)`
  abbrev has_edge : nx.Graph → Text → Text → Bool
  has_edge g u v = any (λ e. e.dst == v) (nx.out_edges g u)

  -- The declaration edge from a target to a stub of its child.
  pub host_stub : Text → Text → LinkState nx → LinkState nx
  unfolding get_list obj_of
  host_stub parent_id stub_id s = if has_edge s.graph parent_id stub_id then s else record s {
    graph = nx.add_edge s.graph (record {
      src = parent_id;
      dst = stub_id;
      kind = EdgeKind.declares;
      confidence = confidence_resolved;
      attrs = [];
    });
    children =
        insert s.children parent_id
          (get_list (lookup s.children parent_id) ++ obj_of s stub_id ∷ []);
  }

  -- `_stub_child`
  pub stub_child : Text → NodeKind → Text → LinkState nx → Text × LinkState nx
  unfolding ensure_stub host_stub obj_of
  stub_child parent_id kind name s =
      let (stub_id, s') = ensure_stub kind ((obj_of s parent_id).name ++ b'.' ∷ name) name s in
      (stub_id, host_stub parent_id stub_id s')

  -- `_emit_edge`
  pub emit_edge : Edge → LinkState nx → LinkState nx
  unfolding add_ensured contains
  emit_edge e s =
      let key : EmittedKey = (
        (((e.src, e.dst), e.kind), e.confidence),
        sort_by pair_leb (map (λ (k, v). (k, str v)) e.attrs),
      ) in
      if contains s.emitted key
      then s
      else add_ensured e [] (record s { emitted = s.emitted ++ key ∷ [] })

  -- The attributes of an edge that `_emit` builds.
  emitted_attrs : UnresolvedRef → Option Text → Attrs → Attrs
  unfolding update not_null
  emitted_attrs ref port_name extra =
      let base = update (filter not_null ref.attrs) extra in
      let named : Attrs = elim port_name [
        | none ↦ base
        | some p ↦ insert base (codes "port_name") (AttrValue.str p)
      ] in
      insert named (codes "line_span") (AttrValue.span ref.line_span)

  -- `_emit`: the confidence is capped by that of the reference's site.
  pub emit : UnresolvedRef → Text → ℕ → Option Text → Attrs → LinkState nx → LinkState nx
  unfolding emit_edge emitted_attrs
  emit ref dst confidence port_name extra s =
      emit_edge
        (record {
          src = ref.src_id;
          dst = dst;
          kind = ref.edge_kind;
          confidence = if leb confidence ref.confidence then confidence else ref.confidence;
          attrs = emitted_attrs ref port_name extra;
        })
        s
