-- ===== src/Ir/Samples.antt =====
-- The record of parse errors on a concrete file.
use hdl_kgraph.Base.{◌≡◌, ◌+◌, Text, codes, List, [], ◌∷◌, ◌++◌, length, take, arith}
use hdl_kgraph.Ir.{FileIr, max_parse_errors, record_parse_errors, record_parse_errors_lem}

abbrev broken : FileIr
broken = record {
  path = codes "rtl/top.sv";
  nodes = [];
  local_edges = [];
  unresolved_refs = [];
  parse_error_count = 1;
  parse_errors = codes "line 3" ∷ [];
}

abbrev messages : List Text
messages = codes "line 7" ∷ codes "line 9" ∷ []

record_parse_errors_example :
    ((record_parse_errors broken messages).parse_error_count
      ≡ broken.parse_error_count + length messages)
    × ((record_parse_errors broken messages).parse_errors
        ≡ take max_parse_errors (broken.parse_errors ++ messages))
record_parse_errors_example = record_parse_errors_lem broken messages (omega arith)
