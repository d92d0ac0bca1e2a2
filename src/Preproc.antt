-- ===== src/Preproc.antt =====
-- src/hdl_kgraph/parser/preprocessor.py: the SystemVerilog preprocessor. This file has its records,
-- the macro table and the state of one run; the children have the scanner of argument lists, the
-- conditional stack, macro expansion and the line loop.
pub mod Table
pub mod Scan
pub mod Conditional
pub mod Expand
pub mod Includes
pub mod Lines
pub mod Define
pub mod Splice
pub mod Emitter
pub mod Process
mod Samples
use hdl_kgraph.Base.{
  ℕ, Bool, true, false, Option, none, some, List, [], ◌∷◌, ◌++◌, Text, codes, Dict, lookup, has_key,
  insert, remove, nat_eq, list_eq, ◌==◌,
}

pub record LineOrigin : Type 0 where
  pub file : Text
  pub line : ℕ
  pub ambiguous : Bool

pub record MacroDef : Type 0 where
  pub name : Text
  pub params : Option (List (Text × Option Text))
  pub body : Text
  pub file : Text
  pub line : ℕ

-- `op="define"` always comes with the definition, `op="undef"` never.
pub data MacroEvent : Type 0 where
  define_event : MacroDef → MacroEvent
  undef_event : Text → MacroEvent

pub record MacroUse : Type 0 where
  pub name : Text
  pub file : Text
  pub line : ℕ
  pub macro : Option MacroDef
  pub ambiguous : Bool

pub record IncludeEvent : Type 0 where
  pub path_text : Text
  pub file : Text
  pub line : ℕ
  pub resolved : Option Text

-- The warnings, with what their texts are built from.
pub data Warning : Type 0 where
  unterminated_ifdef : Text → Warning
  malformed_define : Text → ℕ → Warning
  unterminated_parameters : Text → ℕ → Warning
  without_macro_name : Text → ℕ → Text → Warning
  without_matching_ifdef : Text → ℕ → Text → Warning
  malformed_include : Text → ℕ → Warning
  cannot_resolve : Text → ℕ → Text → Warning
  escapes_root : Text → ℕ → Text → Warning
  include_cycle : Text → ℕ → Text → Warning
  include_depth : Text → ℕ → Warning
  cannot_read : Text → ℕ → Text → Warning
  expansion_depth : Text → ℕ → Text → Warning
  arguments_open : Text → ℕ → Text → Warning
  too_many_arguments : Text → ℕ → Text → Warning
  missing_argument : Text → ℕ → Text → Text → Warning

-- `MacroTable`
abbrev pub MacroTable : Type 0
MacroTable = Dict Text MacroDef

-- `_Frame`
pub record Frame : Type 0 where
  pub dead : Bool
  pub selected : Bool
  pub ever_selected : Bool
  pub ambiguous : Bool

-- What one run changes: the macro table, the conditional stack (innermost first), the memo of
-- include resolution, and the fields of the `PreprocessedFile`.
pub record State : Type 0 where
  pub table : MacroTable
  pub cond : List Frame
  pub cache : Dict (Text × Text) (Option Text)
  pub out : List Text
  pub line_map : List LineOrigin
  pub macro_defs : List MacroDef
  pub macro_events : List MacroEvent
  pub macro_uses : List MacroUse
  pub includes : List IncludeEvent
  pub included_relpaths : List Text
  pub warnings : List Warning

abbrev pub warn : Warning → State → State
warn w s = record s { warnings = s.warnings ++ w ∷ [] }

abbrev pub note_use : MacroUse → State → State
note_use u s = record s { macro_uses = s.macro_uses ++ u ∷ [] }

-- The classes `\w` and `\s` of Python's `re`.
pub record CharClasses : Type 0 where
  pub is_word : ℕ → Bool
  pub is_space : ℕ → Bool
