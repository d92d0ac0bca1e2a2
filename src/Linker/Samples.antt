-- ===== src/Linker/Samples.antt =====
-- The linker on a small build: a file whose local edge names a declaration that no file has, and a
-- reference to a module that two files declare.
use hdl_kgraph.Base.{
  In, keys, arith, starts_with, strip_prefix, suc, length, ℕ, ◌↔◌, Option, some, true, list_beq,
  ◌==◌, All, nat_eq, list_eq, ◌≡◌, ◌⊎◌, none, List, [], ◌∷◌, Text, codes, lookup, has_key,
}
use hdl_kgraph.Schema.{Node, NodeKind, EdgeKind, Language, AttrValue}
use hdl_kgraph.Ids.{decl_node_id, file_node_id}
use hdl_kgraph.Ir.{UnresolvedRef, FileIr}
use hdl_kgraph.Graph.Memory.{memory, memory-Laws}
use hdl_kgraph.Linker.Kinds.{ref_kinds}
use hdl_kgraph.Linker.Store.{LinkState, init_linker, emit}
use hdl_kgraph.Linker.Store.Complete.{init_linker-IsComplete, emit-IsComplete}
use hdl_kgraph.Linker.Targets.{score}
use hdl_kgraph.Linker.Targets.Score.{Contract, score-Contract}
use hdl_kgraph.Linker.Scopes.{signal_targets}
use hdl_kgraph.Linker.Scopes.Signals.{SignalContract, signal_targets-SignalContract}
use hdl_kgraph.Linker.Lex.{lex_identifiers}
use hdl_kgraph.Linker.Lex.Identifiers.{IsName, Distinct, lex_identifiers_lem}
use hdl_kgraph.Climb.{climb, Climbs}
use hdl_kgraph.Linker.Climb.{
  is_unit, parent_of, enclosing_unit_id, climb_ends, enclosing_unit_id_lem,
}
use hdl_kgraph.Linker.Loose.{Host}
use hdl_kgraph.Linker.Orphans.{orphan_stubs, stubs}
use hdl_kgraph.Linker.Orphans.Exact.{Held, orphan_stubs_lem}
use hdl_kgraph.Linker.Link.Returns.{is_linkable, has_entry, IsLinked, link-returns}
use hdl_kgraph.Linker.Kinds.{is_scoped}
use hdl_kgraph.Schema.{get_attr, truthy}
use hdl_kgraph.Linker.Resolve.{Targets, resolve_target}
use hdl_kgraph.Linker.Resolve.Total.{resolve_target-Returns}
use hdl_kgraph.Linker.Store.Growth.{Step}
use hdl_kgraph.Linker.Store.Indexed.{init_linker-Sound}

abbrev lower_case : Text → Text
lower_case t = t

abbrev shown : AttrValue → Text
shown v = []

abbrev module_node : Text → Node
module_node file = record {
  id = decl_node_id file NodeKind.module_kind (codes "fifo");
  kind = NodeKind.module_kind;
  name = codes "fifo";
  qualified_name = codes "fifo";
  file = file;
  line_span = (1, 9);
  language = Language.systemverilog;
  attrs = [];
}

abbrev ir_of : Text → FileIr
ir_of file = record {
  path = file;
  nodes = module_node file ∷ [];
  local_edges =
      (record {
        src = file_node_id file;
        dst = decl_node_id file NodeKind.module_kind (codes "fifo");
        kind = EdgeKind.declares;
        confidence = 10;
        attrs = [];
      })
      ∷ [];
  unresolved_refs = [];
  parse_error_count = 0;
  parse_errors = [];
}

abbrev irs : List FileIr
irs = ir_of (codes "a.sv") ∷ ir_of (codes "b.sv") ∷ []

abbrev linked : LinkState memory
linked = init_linker memory lower_case shown irs

abbrev instance_ref : UnresolvedRef
instance_ref = record {
  edge_kind = EdgeKind.instantiates;
  src_id = decl_node_id (codes "a.sv") NodeKind.instance_kind (codes "top.u1");
  target_name = codes "fifo";
  line_span = (4, 4);
  attrs = [];
  confidence = 10;
}

abbrev targets : List Text
targets = (module_node (codes "a.sv")).id ∷ (module_node (codes "b.sv")).id ∷ []

abbrev fifo_id : Text
fifo_id = (module_node (codes "a.sv")).id

init_linker-IsComplete_example :
    (memory.node linked.graph fifo_id ≡ lookup linked.node_obj fifo_id)
    × (memory.has_node linked.graph fifo_id ≡ has_key linked.node_obj fifo_id)
init_linker-IsComplete_example =
    init_linker-IsComplete memory memory-Laws lower_case shown irs fifo_id

abbrev emitted_once : LinkState memory
emitted_once = emit memory lower_case shown instance_ref (codes "nowhere") 8 none [] linked

emit-IsComplete_example :
    (memory.node emitted_once.graph (codes "nowhere")
      ≡ lookup emitted_once.node_obj (codes "nowhere"))
    × (memory.has_node emitted_once.graph (codes "nowhere")
        ≡ has_key emitted_once.node_obj (codes "nowhere"))
emit-IsComplete_example =
    emit-IsComplete memory memory-Laws lower_case shown instance_ref (codes "nowhere") 8 none []
      linked (init_linker-IsComplete memory memory-Laws lower_case shown irs) (codes "nowhere")

score-Contract_example :
    Contract memory lower_case shown linked instance_ref.src_id targets
      (score memory lower_case shown linked targets instance_ref.src_id)
score-Contract_example = score-Contract memory lower_case shown linked instance_ref.src_id targets

resolve_target-Returns_example :
    (ref_kinds instance_ref.edge_kind ≡ none)
    ⊎ ((r : Targets × LinkState memory) × (resolve_target memory lower_case shown instance_ref
            linked
          ≡ some r)
        × (Step memory memory-Laws linked r.1
            × ((id : Text) → In id r.0.0.0 → has_key r.1.node_obj id ≡ true)))
resolve_target-Returns_example =
    resolve_target-Returns memory memory-Laws lower_case shown instance_ref linked
      (init_linker-Sound memory memory-Laws lower_case shown irs)

-- A port and the net of the same name that declares it again.
abbrev net_of : NodeKind → Node
net_of kind = record {
  id = decl_node_id (codes "a.sv") kind (codes "fifo.y");
  kind = kind;
  name = codes "y";
  qualified_name = codes "fifo.y";
  file = codes "a.sv";
  line_span = (2, 2);
  language = Language.systemverilog;
  attrs = [];
}

abbrev nets : List Node
nets = net_of NodeKind.port ∷ net_of NodeKind.signal ∷ []

signal_targets-SignalContract_example : SignalContract nets (signal_targets nets)
signal_targets-SignalContract_example =
    signal_targets-SignalContract (net_of NodeKind.port) (net_of NodeKind.signal ∷ [])

abbrev port_ref : UnresolvedRef
port_ref = record {
  edge_kind = EdgeKind.connects;
  src_id = decl_node_id (codes "a.sv") NodeKind.instance_kind (codes "top.u1");
  target_name = codes "missing";
  line_span = (5, 5);
  attrs =
      (codes "port_name", AttrValue.str (codes "clk"))
      ∷ (codes "expr_text", AttrValue.str (codes "clk & 2'b01"))
      ∷ [];
  confidence = 10;
}

abbrev irs_with_refs : List FileIr
irs_with_refs =
    record (ir_of (codes "a.sv")) { unresolved_refs = instance_ref ∷ port_ref ∷ [] } ∷ []

abbrev host : Host
host = record {
  fnmatchcase = λ name pattern. name == pattern;
  isabs = λ target. starts_with target (codes "/");
  relative_to = λ target root. strip_prefix root target;
}

instance_ref-linkable : is_linkable instance_ref ≡ true
unfolding is_linkable get_attr lookup truthy is_scoped ref_kinds has_entry
instance_ref-linkable = ground arith

port_ref-linkable : is_linkable port_ref ≡ true
unfolding is_linkable get_attr lookup truthy is_scoped ref_kinds has_entry list_beq
port_ref-linkable = ground arith

link-returns_example : IsLinked memory memory-Laws lower_case shown host none irs_with_refs
link-returns_example =
    link-returns memory memory-Laws lower_case shown host none irs_with_refs
      (instance_ref-linkable, (port_ref-linkable, tt))

abbrev expression : Text
expression = codes "a & 8'hff & not b | a"

lex_identifiers_example :
    All (IsName lower_case) (lex_identifiers lower_case expression)
    × Distinct lower_case (lex_identifiers lower_case expression)
lex_identifiers_example = lex_identifiers_lem lower_case expression

-- Two generate blocks that declare each other, and a third in a module.
abbrev cyclic : LinkState memory
cyclic = record linked {
  parent = (codes "g1", codes "g2") ∷ (codes "g2", codes "g1") ∷ (codes "g3", fifo_id) ∷ [];
}

climb_ends_example :
    (r : Option Text) × (climb
        (is_unit memory cyclic)
        (parent_of memory cyclic)
        (suc (suc (length (keys cyclic.parent))))
        []
        (some (codes "g1"))
      ≡ some r)
climb_ends_example = climb_ends memory cyclic (codes "g1")

enclosing_unit_id_example :
    (enclosing_unit_id memory cyclic (codes "g3") ≡ some fifo_id)
    ↔ ((n : ℕ) × Climbs (is_unit memory cyclic) (parent_of memory cyclic) fifo_id n (codes "g3"))
enclosing_unit_id_example = enclosing_unit_id_lem memory cyclic (codes "g3") fifo_id

orphan_stubs_example :
    (gone : List Text) × (orphan_stubs memory emitted_once.graph ≡ some gone)
    × (In (codes "nowhere") gone ↔ (
        In (codes "nowhere") (stubs memory emitted_once.graph)
        × (¬ Held memory emitted_once.graph (codes "nowhere"))))
orphan_stubs_example = orphan_stubs_lem memory emitted_once.graph (codes "nowhere")
