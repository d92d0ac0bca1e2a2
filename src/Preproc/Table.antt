-- ===== src/Preproc/Table.antt =====
-- `MacroTable` of src/hdl_kgraph/parser/preprocessor.py.
use hdl_kgraph.Base.{
  Bool, Option, none, some, List, [], ◌∷◌, Text, lookup, has_key, insert, remove, nat_eq, list_eq,
}
use hdl_kgraph.Preproc.{MacroDef, MacroEvent, define_event, undef_event, MacroTable}

unfoldable pub define : MacroTable → MacroDef → MacroTable
define table macro = insert table macro.name macro

unfoldable pub undef : MacroTable → Text → MacroTable
undef table name = remove table name

unfoldable pub apply : MacroTable → MacroEvent → MacroTable
unfolding define undef
apply table (define_event macro) = define table macro
apply table (undef_event name) = undef table name

unfoldable pub get : MacroTable → Text → Option MacroDef
get table name = lookup table name

unfoldable pub defined : MacroTable → Text → Bool
defined table name = has_key table name

-- `MacroTable(defines)`: a missing value is an empty body.
unfoldable pub from_options : MacroTable → List (Text × Option Text) → MacroTable
unfolding define
from_options table [] = table
from_options table ((name, value) ∷ rest) =
    from_options
      (define table (record {
        name = name;
        params = none;
        body = elim value [ none ↦ [] | some v ↦ v ];
        file = [];
        line = 0;
      }))
      rest

-- The events of a run, applied in order.
unfoldable pub replay : MacroTable → List MacroEvent → MacroTable
unfolding apply
replay table [] = table
replay table (e ∷ es) = replay (apply table e) es
