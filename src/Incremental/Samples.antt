-- ===== src/Incremental/Samples.antt =====
-- The incremental build on a small library: a header that a module includes, whose macro a second
-- module uses.
use hdl_kgraph.Base.{
  inl, inr, ap, sym, ◌∙◌, subst, ◌≡◌, ◌↔◌, ◌≢◌, ◌⊎◌, refl, true, false, none, some, List, [], ◌∷◌,
  Text, codes, Dict, In, keys, lookup, has_key, nat_eq, list_eq, pair_eq, arith, IsDict, sorted,
  sort_by, insert_sorted, list_beq, All, starts_with,
}
use hdl_kgraph.Schema.{node_kind_eq, Node, Language, Edge, NodeKind, EdgeKind}
use hdl_kgraph.Schema.NodeKindEnum
use hdl_kgraph.Ids.{file_node_id, decl_node_id}
use hdl_kgraph.Graph.Memory.{memory, memory-Laws}
use hdl_kgraph.Linker.Kinds.{RefRecord}
use hdl_kgraph.Incremental.Hashes.{diff_hashes, is_change, differs}
use hdl_kgraph.Incremental.Hashes.Exact.{diff_hashes_exact, diff_hashes_empty, Changed}
use hdl_kgraph.Incremental.Git.{
  PathParts, GitRun, printed, detected, looks_like_option, refused, is_build_input,
  detect_git_changes,
}
use hdl_kgraph.Incremental.Git.Inputs.{listed, detect_git_changes-Inputs}
use hdl_kgraph.Incremental.Dirty.{Dependent, dependents, dirty_closure}
use hdl_kgraph.Incremental.Dirty.Dependents.{Depends, HasMacros, dependents_iff}
use hdl_kgraph.Incremental.Dirty.Closure.{Dirty, dirty_closure_correct}
use hdl_kgraph.Incremental.Names.{Profiles, DefKey, changed_definition_names, affected_clean_refs}
use hdl_kgraph.Incremental.Names.Affected.{
  changed_definition_names_iff, affected_clean_refs_iff, IsAffected, key_of,
}

abbrev header : Text
header = codes "defs.svh"

abbrev top : Text
top = codes "top.sv"

abbrev leaf : Text
leaf = codes "leaf.sv"

abbrev width_id : Text
width_id = decl_node_id header NodeKind.macro (codes "WIDTH")

abbrev edge : Text → Text → EdgeKind → Edge
edge src dst kind = record { src = src; dst = dst; kind = kind; confidence = 10; attrs = [] }

abbrev width : Node
width = record {
  id = width_id;
  kind = NodeKind.macro;
  name = codes "WIDTH";
  qualified_name = codes "WIDTH";
  file = header;
  line_span = (1, 1);
  language = Language.unknown;
  attrs = [];
}

abbrev library : memory.Graph
library =
    memory.add_edge
      (memory.add_edge
        (memory.add_edge (memory.add_node memory.empty width)
          (edge (file_node_id top) (file_node_id header) EdgeKind.includes))
        (edge (file_node_id header) width_id EdgeKind.defines_macro))
      (edge (file_node_id leaf) width_id EdgeKind.uses_macro)

library-HasMacros : HasMacros memory library
unfolding memory list_beq decl_node_id NodeKindEnum.value
library-HasMacros d (inl e) k =
    let q : EdgeKind.includes ≡ EdgeKind.defines_macro = sym (ap (λ (x : Edge). x.kind) e) ∙ k in
    absurd (ground arith)
library-HasMacros d (inr (inl e)) k =
    (width, subst (λ (x : Edge). memory.node library x.dst ≡ some width) (sym e) refl)
library-HasMacros d (inr (inr (inl e))) k =
    let q : EdgeKind.uses_macro ≡ EdgeKind.defines_macro = sym (ap (λ (x : Edge). x.kind) e) ∙ k in
    absurd (ground arith)
library-HasMacros d (inr (inr (inr bad))) k = absurd bad

abbrev stored_hashes : Dict Text Text
stored_hashes = (header, codes "1") ∷ (top, codes "2") ∷ []

abbrev current_hashes : Dict Text Text
current_hashes = (header, codes "9") ∷ (leaf, codes "3") ∷ []

current-IsDict : IsDict current_hashes
unfolding keys
current-IsDict = ground arith

stored-IsDict : IsDict stored_hashes
unfolding keys
stored-IsDict = ground arith

diff_hashes_exact_example :
    (In header (diff_hashes stored_hashes current_hashes).changed
      ↔ Changed stored_hashes current_hashes header)
    × (In header (diff_hashes stored_hashes current_hashes).added
        ↔ ((lookup stored_hashes header ≡ none) × (lookup current_hashes header ≢ none)))
    × (In header (diff_hashes stored_hashes current_hashes).removed
        ↔ ((lookup stored_hashes header ≢ none) × (lookup current_hashes header ≡ none)))
diff_hashes_exact_example = diff_hashes_exact stored_hashes current_hashes current-IsDict header

diff_hashes_empty_example : lookup stored_hashes top ≡ lookup stored_hashes top
unfolding diff_hashes is_change differs lookup has_key keys sorted sort_by insert_sorted list_beq
diff_hashes_empty_example = diff_hashes_empty stored_hashes stored_hashes stored-IsDict refl top

dependents_iff_example :
    (ds : List Dependent) × (dependents memory library header ≡ some ds)
    × (In top (keys ds) ↔ Depends memory library header top)
dependents_iff_example = dependents_iff memory memory-Laws library library-HasMacros header top

abbrev seeds : Dict Text Text
seeds = (header, codes "changed") ∷ []

dirty_closure_example :
    (r : Dict Text Text) × (dirty_closure memory library seeds ≡ some r)
    × ((f : Text) → (has_key r f ≡ true) ↔ Dirty memory memory-Laws library seeds f)
    × ((f : Text) → (lookup seeds f ≡ none) ⊎ (lookup r f ≡ lookup seeds f))
dirty_closure_example = dirty_closure_correct memory memory-Laws library library-HasMacros seeds

abbrev fifo : DefKey
fifo = (NodeKind.module_kind, codes "fifo")

abbrev prior_profiles : Profiles
prior_profiles = (fifo, (codes "a.sv::module:fifo" ∷ []) ∷ []) ∷ []

changed_definition_names_example :
    In fifo (changed_definition_names prior_profiles [])
    ↔ (lookup prior_profiles fifo ≢ lookup [] fifo)
changed_definition_names_example = changed_definition_names_iff prior_profiles [] fifo

abbrev records : List RefRecord
records =
    (record {
      file = top;
      src_id = decl_node_id top NodeKind.instance_kind (codes "top.u1");
      edge_kind = EdgeKind.instantiates;
      target_name = codes "fifo";
      scoped = false;
    })
    ∷ []

abbrev moved : Text × Text × EdgeKind
moved = (top, decl_node_id top NodeKind.instance_kind (codes "top.u1"), EdgeKind.instantiates)

affected_clean_refs_example :
    In moved (affected_clean_refs records (fifo ∷ []))
    ↔ ((rec : RefRecord) × In rec records × (moved ≡ key_of rec) × IsAffected (fifo ∷ []) rec)
affected_clean_refs_example = affected_clean_refs_iff records (fifo ∷ []) moved

-- Every path has the suffix of a source, and git reports one rename and one untracked file.
abbrev parts : PathParts
parts = record { suffix = λ p. codes ".sv"; name = λ p. p }

abbrev renaming : Text → GitRun
renaming ref = printed (codes "R100\ta.sv\tb.sv" ∷ []) (codes "c.sv" ∷ [])

detect_git_changes-Inputs_example :
    All
      (λ p. is_build_input parts (codes ".sv" ∷ []) p ≡ true)
      (listed parts
        (codes ".sv" ∷ [])
        (detect_git_changes parts (codes ".sv" ∷ []) renaming (codes "HEAD")))
    × (detect_git_changes parts (codes ".sv" ∷ []) renaming (b'-' ∷ codes "G")
        ≡ refused (looks_like_option (b'-' ∷ codes "G")))
detect_git_changes-Inputs_example =
    detect_git_changes-Inputs parts (codes ".sv" ∷ []) renaming (codes "HEAD") (codes "G")

-- The new path of the rename is added and the old one removed.
renamed :
    detect_git_changes parts (codes ".sv" ∷ []) renaming (codes "HEAD")
    ≡ detected (record {
      changed = [];
      added = codes "b.sv" ∷ codes "c.sv" ∷ [];
      removed = codes "a.sv" ∷ [];
    })
unfolding detect_git_changes sorted starts_with
renamed = refl
