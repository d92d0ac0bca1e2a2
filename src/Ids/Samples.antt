-- ===== src/Ids/Samples.antt =====
-- Node ids of src/hdl_kgraph/ids.py on concrete inputs.
use hdl_kgraph.Base.{◌≡◌, refl, codes, some, Text, has_char, after_last, before_first}
use hdl_kgraph.Schema.{NodeKind}
use hdl_kgraph.Ids.{
  file_node_id, filelist_node_id, library_node_id, decl_node_id, stub_node_id, elab_node_id,
  parse_node_id,
}
use hdl_kgraph.Ids.Readback.{
  parse-decl_node_id, parse-stub_node_id, parse-elab_node_id, parse_plain_ids,
}

abbrev path : Text
path = codes "rtl/top.sv"

parse-decl_node_id_example :
    parse_node_id (decl_node_id path NodeKind.port (codes "top.u1.clk@3"))
    ≡ some (NodeKind.port, after_last b'.' (before_first b'@' (codes "top.u1.clk@3")))
unfolding has_char
parse-decl_node_id_example = parse-decl_node_id path NodeKind.port (codes "top.u1.clk@3") refl

parse-stub_node_id_example :
    parse_node_id (stub_node_id NodeKind.module_kind (codes "fifo"))
    ≡ some (NodeKind.module_kind, codes "fifo")
unfolding has_char
parse-stub_node_id_example = parse-stub_node_id NodeKind.module_kind (codes "fifo") refl

parse-elab_node_id_example :
    parse_node_id (elab_node_id NodeKind.instance_kind (codes "top.u1"))
    ≡ some (NodeKind.instance_kind, after_last b'.' (codes "top.u1"))
unfolding has_char
parse-elab_node_id_example = parse-elab_node_id NodeKind.instance_kind (codes "top.u1") refl

parse_plain_ids_example :
    (parse_node_id (file_node_id path) ≡ some (NodeKind.file, after_last b'/' path))
    × (parse_node_id (filelist_node_id path) ≡ some (NodeKind.filelist, after_last b'/' path))
    × (parse_node_id (library_node_id path) ≡ some (NodeKind.library, path))
unfolding has_char
parse_plain_ids_example = parse_plain_ids path refl
