-- ===== src/Lib.antt =====
-- A verification library of hdl-kgraph, the knowledge graph of hardware designs. Paths are from the
-- repository's root.
--
-- The program reads sources in several hardware languages. A preprocessor expands SystemVerilog, a
-- parser turns each file into an intermediate form (nodes, local edges, unresolved references), a
-- linker joins the forms into one graph, and the incremental build finds what a change of files
-- makes necessary to do again.
--
--   * Schema and its children are src/hdl_kgraph/schema.py: node kinds, edge kinds and languages with
--     their texts, nodes and edges. Confidences are counted in tenths.
--   * Ids is src/hdl_kgraph/ids.py: the id constructors and `parse_node_id`.
--   * Ir is the intermediate form of src/hdl_kgraph/parser/base.py.
--   * Preproc and its children are src/hdl_kgraph/parser/preprocessor.py. Table is `MacroTable`; Scan
--     is `_scan_parens` and `_split_top_commas`; Conditional is the stack of `ifdef` frames; Expand is
--     `_expand` and `_expand_one`; Includes and Splice are `_resolve_include`, `_within_allowed` and
--     `_handle_include`; Define is `_handle_define`; Lines and Process are the line loop. Process.Stable
--     is the induction over a whole run, nested includes and expansions included, that the theorems
--     about runs instantiate.
--   * Graph is the multigraph of networkx as a record of operations, with the laws that its
--     documentation gives; Graph.Memory is a concrete graph that meets them.
--   * Linker and its children are parts of src/hdl_kgraph/graph/builder.py.
--   * Worklist and Incremental are src/hdl_kgraph/incremental.py: Hashes is `diff_hashes`, Dirty is
--     `dirty_closure` and `newly_resolvable_includes`, Names are the functions from
--     `definition_profiles` to `affected_clean_refs`, Git is `detect_git_changes`.
--
-- A text is the list of its code points, and a Python dict is an association list in insertion order.
-- The file system, the classes of Python's `re` and the graph library are parameters. The nesting of
-- includes and of expansions recurses on the depths that `max_include_depth` and
-- `max_expansion_depth` leave, which are the program's own limits. The worklist of `dirty_closure`
-- runs on the number of seeds plus the number of edges, which the theorem about it shows to be enough.
--
-- Not modelled: the parsers, which walk trees of a third-party library; storage, command line, server
-- and drawing, which are input and output; the enrichment back ends, which drive external programs.
--
-- Of the linker, Linker.Kinds has the tables, Linker.State the fields of `_Linker`, Linker.Store
-- its constructor, `_ensure_endpoint`, `_ensure_stub`, `_stub_child`, `_emit_edge` and `_emit`,
-- Linker.Bindings `_binding_for`, Linker.Targets the filters, `_score`, the VHDL configurations and
-- `_record_binding`, Linker.Resolve `_resolve_target`, Linker.Climb `_enclosing_unit_id`,
-- Linker.Scopes the namespace of a design unit, Linker.Lex `_lex_identifiers`, Linker.Loose the
-- cocotb, SLN, constraint and file references, Linker.Ports `_derive_port_dataflow` and
-- `_resolve_binding`, and Linker.Link `_resolve_scoped`, `_resolve` and `link`. A missing table
-- entry is `none`, the `KeyError` of the code, and so is an id that `self.node_obj` does not have:
-- `checked` of Linker.Store stands where the code subscripts `node_obj`, ahead of the choice that the
-- nodes decide. The parent of a stub and the unit of a scope have just been found there. The macro
-- names that `dirty_closure` reads are checked in the same way. Python's `lower` and `str`,
-- `fnmatch` and the resolution of paths are parameters. Linker.Store.Growth is what every operation
-- does to the state, and the modules named Growth and Known carry it through the linker to
-- Linker.Link.Returns. Linker.Orphans is `_gc_orphan_stubs` up to the call that removes the nodes;
-- its fuel is the number of stubs that it starts with and, for each stub, one more than its
-- declarations. The rest of the incremental link and the helpers for enrichment are not modelled.
-- Preproc.Emitter is `PreprocEmitter`.
--
-- Analysis is src/hdl_kgraph/graph/analysis.py: Units is `find_top_modules` to `instances_of` with
-- the counts and the stubs, Impact `_enclosing_unit` to `impact_radius`, Hierarchy `hierarchy_tree`
-- and `subtree_node_ids`, Queries `signal_drivers` and `search_nodes`. The climbs of the linker and
-- of the analyses are one loop, Climb, whose fuel is the number of nodes that have a parent and two
-- more. `impact_radius` runs on the number of the ends of edges and one more. `impact_seeds`,
-- `port_map` and the other files of graph/ are not modelled.
pub mod Base
pub mod Schema
pub mod Ids
pub mod Ir
pub mod Preproc
pub mod Graph
pub mod Climb
pub mod Linker
pub mod Analysis
pub mod Worklist
pub mod Incremental
