-- ===== src/Preproc/Samples.antt =====
-- The preprocessor on a small file system: a design that includes a header under its root.
use hdl_kgraph.Base.{
  ◌≡◌, ◌≤◌, ◌⊎◌, refl, true, false, some, List, [], ◌∷◌, ◌++◌, Text, codes, length, nat_eq, list_eq,
  ◌==◌, ◌||◌, ◌&&◌, leb, starts_with, All, lookup, In, has_key, remove,
}
use hdl_kgraph.Preproc.{CharClasses, State, LineOrigin}
use hdl_kgraph.Preproc.Table.{replay, defined}
use hdl_kgraph.Preproc.Scan.{split_top_commas}
use hdl_kgraph.Preproc.Scan.Laws.{join_commas, join-split_top_commas}
use hdl_kgraph.Preproc.Conditional.{both, opened}
use hdl_kgraph.Preproc.Conditional.Chains.{
  Branch, elsif_branch, else_only, has_else, selections, chain_selects_one,
}
use hdl_kgraph.Preproc.Includes.{Files, Options, search, resolve_include}
use hdl_kgraph.Preproc.Emitter.{Emission, emit_events}
use hdl_kgraph.Preproc.Emitter.Closed.{IsAnchored, emit_events-IsAnchored}
use hdl_kgraph.Preproc.Process.{preprocess}
use hdl_kgraph.Preproc.Process.Replay.{defined_by, preprocess-replays}
use hdl_kgraph.Preproc.Process.LineMap.{preprocess-line_map}
use hdl_kgraph.Preproc.Process.Roots.{IsTrusted, preprocess-confined, IsAllowed}
use hdl_kgraph.Preproc.Process.Memo.{IsFaithful, resolve_include-transparent}

join-split_top_commas_example :
    join_commas (split_top_commas (codes "a, f(b, c), \"x,y\"")) ≡ codes "a, f(b, c), \"x,y\""
join-split_top_commas_example = join-split_top_commas (codes "a, f(b, c), \"x,y\"")

abbrev branches : List Branch
branches = elsif_branch true ∷ else_only ∷ []

chain_selects_one_example :
    (selections both (opened both false false true) branches ≤ 1)
    × ((has_else branches ≡ false) ⊎ (selections both (opened both false false true) branches ≡ 1))
chain_selects_one_example = chain_selects_one both false false true branches

abbrev ascii : CharClasses
ascii = record {
  is_word = λ c. (leb b'a' c && leb c b'z') || ((leb b'A' c && leb c b'Z') || (c == b'_'));
  is_space = λ c. (c == b' ') || ((c == b'\t') || (c == b'\n'));
}

abbrev here : LineOrigin
here = record { file = codes "top.sv"; line = 1; ambiguous = false }

abbrev design : Text
design = codes "/d/top.sv"

abbrev lines : List Text
lines =
    codes "`include \"a.svh\""
    ∷ codes "`define W 8"
    ∷ codes "`ifdef W"
    ∷ codes "wire [`W-1:0] x;"
    ∷ codes "`endif"
    ∷ []

abbrev files : Files
files = record {
  join = λ d t. d ++ b'/' ∷ t;
  is_file = λ p. p == codes "/d/a.svh";
  parent = λ p. codes "/d";
  relpath = λ p. p;
  read = λ p. some (codes "`define A 1" ∷ codes "`undef A" ∷ []);
  within_root = λ p root. starts_with p root;
}

abbrev options : Options
options = record {
  base = codes "/d/";
  incdirs = [];
  auto_incdirs = [];
  branch_mode = both;
  max_include_depth = 4;
  max_expansion_depth = 8;
}

abbrev start : State
start = record {
  table = [];
  cond = [];
  cache = [];
  out = [];
  line_map = [];
  macro_defs = [];
  macro_events = [];
  macro_uses = [];
  includes = [];
  included_relpaths = [];
  warnings = [];
}

abbrev ended : State
ended = preprocess ascii files options design lines start

preprocess-replays_example :
    (ended.table ≡ replay start.table ended.macro_events)
    × (ended.macro_defs ≡ defined_by ended.macro_events)
preprocess-replays_example = preprocess-replays ascii files options design lines start

preprocess-line_map_example : length ended.out ≡ length ended.line_map
preprocess-line_map_example = preprocess-line_map ascii files options design lines start

preprocess-confined_example :
    All (IsTrusted files options) ended.included_relpaths
    × All (λ o. IsAllowed files options design o.file) ended.line_map
preprocess-confined_example = preprocess-confined ascii files options design lines start

-- The header is accepted and spliced.
spliced : ended.included_relpaths ≡ codes "/d/a.svh" ∷ []
unfolding preprocess defined has_key remove
spliced = refl

start-IsFaithful : IsFaithful files options start
unfolding lookup
start-IsFaithful dir text o h = cc

resolve_include-transparent_example :
    (resolve_include files options (codes "a.svh") (codes "/d") ended).0
    ≡ search files options (codes "a.svh") (codes "/d")
resolve_include-transparent_example =
    resolve_include-transparent ascii files options design lines start (codes "a.svh") (codes "/d")
      start-IsFaithful

-- The emitter at the start of a build, with an empty unit.
abbrev empty_unit : Emission
empty_unit = record {
  macro_ids = [];
  used_macro_ids = [];
  seen_nodes = [];
  seen_edges = [];
  ir = record {
    path = design;
    nodes = [];
    local_edges = [];
    unresolved_refs = [];
    parse_error_count = 0;
    parse_errors = [];
  };
}

emit_events-IsAnchored_example :
    All
      (λ e.
        In e empty_unit.ir.local_edges
        ⊎ IsAnchored empty_unit.seen_nodes (emit_events ended empty_unit) e)
      (emit_events ended empty_unit).ir.local_edges
emit_events-IsAnchored_example = emit_events-IsAnchored ended empty_unit
