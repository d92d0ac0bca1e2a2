-- ===== src/Linker/Kinds.antt =====
-- The tables of src/hdl_kgraph/graph/builder.py that say what a reference may resolve to.
use hdl_kgraph.Base.{Bool, true, false, Option, none, some, List, [], ◌∷◌, ◌++◌, Text, contains}
use hdl_kgraph.Schema.{NodeKind, node_kind_eq, EdgeKind, edge_kind_eq}

abbrev pub sv_instantiable : List NodeKind
sv_instantiable =
    NodeKind.module_kind ∷ NodeKind.interface ∷ NodeKind.program ∷ NodeKind.primitive ∷ []

abbrev pub vhdl_instantiable : List NodeKind
vhdl_instantiable = NodeKind.entity ∷ []

-- `_REF_TARGET_KINDS`: the kinds of the referrer's own language and those of the fallback across
-- languages; `none` for an edge kind that is not in the table.
unfoldable pub ref_kinds : EdgeKind → Option (List NodeKind × List NodeKind)
ref_kinds EdgeKind.instantiates = some (sv_instantiable, vhdl_instantiable)
ref_kinds EdgeKind.connects = some (sv_instantiable, vhdl_instantiable)
ref_kinds EdgeKind.parameterizes = some (sv_instantiable, vhdl_instantiable)
ref_kinds EdgeKind.imports = some (NodeKind.package_kind ∷ [], [])
ref_kinds EdgeKind.extends = some (NodeKind.class ∷ [], [])
ref_kinds EdgeKind.implements = some (NodeKind.entity ∷ [], [])
ref_kinds EdgeKind.uses_package = some (NodeKind.vhdl_package ∷ [], [])
ref_kinds EdgeKind.binds = some (NodeKind.entity ∷ [], NodeKind.module_kind ∷ [])
ref_kinds EdgeKind.foreign_binds = some (NodeKind.function ∷ NodeKind.task ∷ [], [])
ref_kinds _ = none

-- `_STUB_KIND`
unfoldable pub stub_kind : EdgeKind → Option NodeKind
stub_kind EdgeKind.instantiates = some NodeKind.module_kind
stub_kind EdgeKind.connects = some NodeKind.module_kind
stub_kind EdgeKind.parameterizes = some NodeKind.module_kind
stub_kind EdgeKind.imports = some NodeKind.package_kind
stub_kind EdgeKind.extends = some NodeKind.class
stub_kind EdgeKind.implements = some NodeKind.entity
stub_kind EdgeKind.uses_package = some NodeKind.vhdl_package
stub_kind EdgeKind.binds = some NodeKind.entity
stub_kind EdgeKind.foreign_binds = some NodeKind.function
stub_kind _ = none

-- `_SCOPED_REF_KINDS`
unfoldable pub is_scoped : EdgeKind → Bool
is_scoped EdgeKind.drives = true
is_scoped EdgeKind.reads = true
is_scoped EdgeKind.clocked_by = true
is_scoped EdgeKind.resets = true
is_scoped EdgeKind.asserts_on = true
is_scoped EdgeKind.covers = true
is_scoped _ = false

-- `_SCOPED_UNIT_KINDS`
unfoldable pub is_scoped_unit : NodeKind → Bool
is_scoped_unit NodeKind.module_kind = true
is_scoped_unit NodeKind.interface = true
is_scoped_unit NodeKind.program = true
is_scoped_unit NodeKind.architecture = true
is_scoped_unit NodeKind.entity = true
is_scoped_unit _ = false

-- `_PASS2_EDGE_KINDS`
unfoldable pub is_pass_two : EdgeKind → Bool
is_pass_two EdgeKind.declares = false
is_pass_two EdgeKind.includes = false
is_pass_two EdgeKind.defines_macro = false
is_pass_two EdgeKind.uses_macro = false
is_pass_two _ = true

pub record RefRecord : Type 0 where
  pub file : Text
  pub src_id : Text
  pub edge_kind : EdgeKind
  pub target_name : Text
  pub scoped : Bool

-- The set is a list here; only membership is ever asked of it.
unfoldable pub ref_target_kinds : EdgeKind → List NodeKind
unfolding ref_kinds
ref_target_kinds k = elim (ref_kinds k) [ none ↦ [] | some (same, cross) ↦ same ++ cross ]

-- `DEFINITION_KINDS`
abbrev pub definition_kinds : List NodeKind
definition_kinds =
    sv_instantiable
    ++ vhdl_instantiable
    ++ (NodeKind.package_kind ∷ NodeKind.class ∷ NodeKind.vhdl_package ∷ NodeKind.function
        ∷ NodeKind.task ∷ [])

unfoldable pub is_definition : NodeKind → Bool
unfolding contains
is_definition k = contains definition_kinds k
