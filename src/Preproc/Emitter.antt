-- ===== src/Preproc/Emitter.antt =====
-- `PreprocEmitter` of src/hdl_kgraph/parser/preprocessor.py: the nodes and edges of a run of the
-- preprocessor, each emitted once in a build.
pub mod Closed
use hdl_kgraph.Base.{
  ℕ, Bool, true, false, Option, none, some, List, [], ◌∷◌, ◌++◌, Text, codes, Dict, lookup, insert,
  contains, length, after_last, nat_eq, list_eq, pair_eq, option_eq, ◌==◌, if◌then◌else◌,
}
use hdl_kgraph.Schema.{
  Node, Edge, NodeKind, EdgeKind, edge_kind_eq, Language, AttrValue, Attrs, confidence_resolved,
  confidence_ambiguous,
}
use hdl_kgraph.Ids.{file_node_id, decl_node_id, stub_node_id}
use hdl_kgraph.Ir.{FileIr}
use hdl_kgraph.Preproc.{MacroDef, MacroUse, IncludeEvent, State}
use hdl_kgraph.Preproc.Expand.{str_nat}

abbrev pub MacroKey : Type 0
MacroKey = (Text × Text) × ℕ

-- The fields of `PreprocEmitter`, with the result of the unit at hand.
pub record Emission : Type 0 where
  pub macro_ids : Dict MacroKey Text
  pub used_macro_ids : List Text
  pub seen_nodes : List Text
  pub seen_edges : List ((Text × Text) × EdgeKind)
  pub ir : FileIr

-- `_add_node_once`
pub add_node_once : Node → Emission → Emission
unfolding contains
add_node_once x s = if contains s.seen_nodes x.id then s else record s {
  seen_nodes = s.seen_nodes ++ x.id ∷ [];
  ir = record s.ir { nodes = s.ir.nodes ++ x ∷ [] };
}

-- `_add_edge_once`
pub add_edge_once : Edge → Emission → Emission
unfolding contains
add_edge_once e s = if contains s.seen_edges ((e.src, e.dst), e.kind) then s else record s {
  seen_edges = s.seen_edges ++ ((e.src, e.dst), e.kind) ∷ [];
  ir = record s.ir { local_edges = s.ir.local_edges ++ e ∷ [] };
}

file_node : Text → Node
unfolding after_last
file_node relpath = record {
  id = file_node_id relpath;
  kind = NodeKind.file;
  name = after_last b'/' relpath;
  qualified_name = relpath;
  file = relpath;
  line_span = (0, 0);
  language = Language.unknown;
  attrs = [];
}

-- `_file_stub`
pub file_stub : Text → Emission → Emission
unfolding file_node
file_stub relpath s = add_node_once (file_node relpath) s

-- The id of a macro by its file, `macro:…` where it has none.
plain_macro_id : MacroDef → Text
plain_macro_id macro = elim macro.file [
  | [] ↦ codes "macro:" ++ macro.name
  | c ∷ t ↦ decl_node_id (c ∷ t) NodeKind.macro macro.name
]

-- A redefinition later in the file has its line behind an `@`.
unused_macro_id : MacroDef → Emission → Text
unfolding plain_macro_id contains str_nat
unused_macro_id macro s =
    if contains s.used_macro_ids (plain_macro_id macro)
    then plain_macro_id macro ++ b'@' ∷ str_nat macro.line
    else plain_macro_id macro

macro_id_by : Option Text → MacroDef → Emission → Text × Emission
unfolding unused_macro_id
macro_id_by (some id) macro s = (id, s)
macro_id_by none macro s =
    let id = unused_macro_id macro s in
    (
      id,
      record s {
        used_macro_ids = s.used_macro_ids ++ id ∷ [];
        macro_ids = insert s.macro_ids ((macro.file, macro.name), macro.line) id;
      },
    )

-- `_macro_id`
pub macro_id : MacroDef → Emission → Text × Emission
unfolding macro_id_by lookup
macro_id macro s = macro_id_by (lookup s.macro_ids ((macro.file, macro.name), macro.line)) macro s

macro_attrs : MacroDef → Attrs
macro_attrs macro =
    (codes "body", AttrValue.str macro.body)
    ∷ (
      codes "arity",
      elim macro.params [ none ↦ AttrValue.null | some ps ↦ AttrValue.num (length ps) ],
    )
    ∷ (elim macro.file [ [] ↦ (codes "from_options", AttrValue.flag true) ∷ [] | c ∷ t ↦ [] ])

macro_node : Text → MacroDef → Node
unfolding macro_attrs
macro_node id macro = record {
  id = id;
  kind = NodeKind.macro;
  name = macro.name;
  qualified_name = macro.name;
  file = macro.file;
  line_span = (macro.line, macro.line);
  language = Language.unknown;
  attrs = macro_attrs macro;
}

-- `_ensure_macro_node`
pub ensure_macro_node : MacroDef → Emission → Text × Emission
unfolding macro_node
ensure_macro_node macro s =
    let (id, s') = macro_id macro s in (id, add_node_once (macro_node id macro) s')

-- The node of a name that nothing defines.
unresolved_node : NodeKind → Text → Node
unresolved_node kind name = record {
  id = stub_node_id kind name;
  kind = kind;
  name = name;
  qualified_name = name;
  file = [];
  line_span = (0, 0);
  language = Language.unknown;
  attrs = (codes "unresolved", AttrValue.flag true) ∷ [];
}

abbrev edge_of : Text → Text → EdgeKind → ℕ → Attrs → Edge
edge_of src dst kind confidence attrs = record {
  src = src;
  dst = dst;
  kind = kind;
  confidence = confidence;
  attrs = attrs;
}

-- An edge that leaves the node of a file, once that node is there.
pub from_file : Text → Text → EdgeKind → ℕ → Attrs → Emission → Emission
from_file file dst kind confidence attrs s =
    add_edge_once (edge_of (file_node_id file) dst kind confidence attrs) (file_stub file s)

pub emit_macro : MacroDef → Emission → Emission
emit_macro macro s =
    let (id, s') = ensure_macro_node macro s in
    from_file macro.file id EdgeKind.defines_macro confidence_resolved [] s'

pub used_node : Text → Option MacroDef → Emission → Text × Emission
unfolding unresolved_node
used_node name none s =
    (stub_node_id NodeKind.macro name, add_node_once (unresolved_node NodeKind.macro name) s)
used_node name (some macro) s = ensure_macro_node macro s

pub emit_use : MacroUse → Emission → Emission
emit_use u s =
    let (id, s') = used_node u.name u.macro s in
    from_file u.file id EdgeKind.uses_macro
      (if u.ambiguous then confidence_ambiguous else confidence_resolved)
      ((codes "line", AttrValue.num u.line) ∷ []) s'

pub included_node : Text → Option Text → Emission → Text × Emission
unfolding unresolved_node
included_node path_text none s = (
  stub_node_id NodeKind.include_file path_text,
  add_node_once (unresolved_node NodeKind.include_file path_text) s,
)
included_node path_text (some resolved) s = (file_node_id resolved, file_stub resolved s)

pub emit_include : IncludeEvent → Emission → Emission
emit_include i s =
    let (id, s') = included_node i.path_text i.resolved s in
    from_file i.file id EdgeKind.includes confidence_resolved
      ((codes "line", AttrValue.num i.line) ∷ []) s'

-- The key of `_aggregate_uses`: file, name, the line of the definition, ambiguity as 0 or 1.
abbrev UseKey : Type 0
UseKey = ((Text × Text) × Option ℕ) × ℕ

use_key : MacroUse → UseKey
use_key u = (
  ((u.file, u.name), elim u.macro [ none ↦ none | some macro ↦ some macro.line ]),
  if u.ambiguous then 1 else 0,
)

-- `_aggregate_uses`
pub aggregate_uses : List UseKey → List MacroUse → List MacroUse
unfolding use_key contains
aggregate_uses seen [] = []
aggregate_uses seen (u ∷ us) =
    let repeated = aggregate_uses seen us in
    let first = aggregate_uses (seen ++ use_key u ∷ []) us in
    if contains seen (use_key u) then repeated else u ∷ first

emit_each : {A : Type 0} → (A → Emission → Emission) → List A → Emission → Emission
emit_each step [] s = s
emit_each step (x ∷ xs) s = emit_each step xs (step x s)

-- `emit`, of what a run of the preprocessor has recorded.
pub emit_events : State → Emission → Emission
unfolding emit_each aggregate_uses
emit_events pp s =
    emit_each emit_include pp.includes
      (emit_each emit_use (aggregate_uses [] pp.macro_uses) (emit_each emit_macro pp.macro_defs s))
