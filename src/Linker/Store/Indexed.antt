-- ===== src/Linker/Store/Indexed.antt =====
-- The indexes that `_Linker.__init__` of src/hdl_kgraph/graph/builder.py builds name only nodes.
use hdl_kgraph.Base.{
  ◌≡◌, refl, ◌⊎◌, inl, inr, List, [], ◌∷◌, ◌++◌, Text, Dict, In, In-append, lookup, lookup-insert,
  has_key, has_key-insert, insert, nat_eq, list_eq, pair_eq, ◌==◌, ==_iff, Bool-cases, if_intro,
  arith, contains, subst, Eq,
}
use hdl_kgraph.Schema.{Node, Edge, node_kind_eq, EdgeKind, edge_kind_eq, AttrValue}
use hdl_kgraph.Ir.{FileIr}
use hdl_kgraph.Graph.{MultiDiGraph, Laws}
use hdl_kgraph.Linker.Store.{
  LinkState, LocalKey, get_list, index_node, index_nodes, index_files, add_known, note_declared,
  add_locals, add_files, blank, init_linker,
}
use hdl_kgraph.Linker.Store.Complete.{index_files-IsComplete, blank-IsComplete}
use hdl_kgraph.Linker.Store.Growth.{
  Step, stays, then-Step, Sound, DefinitionsKnown, Step-Sound, add_ensured-Step,
}

-- `d[k].append(x)` on a `defaultdict(list)`.
In-appended :
    {K : Type 0} ⦃e : Eq K⦄ (d : Dict K (List Text)) (k : K) (x : Text) (key : K) (id : Text)
    → In id (get_list (lookup (insert d k (get_list (lookup d k) ++ x ∷ [])) key))
    → (id ≡ x) ⊎ In id (get_list (lookup d key))
unfolding get_list
In-appended d k x key id h =
    let old = get_list (lookup d k) in
    let moved = subst (λ o. In id (get_list o)) (lookup-insert d k (old ++ x ∷ []) key) h in
    elim (Bool-cases (k == key)) [
      | inl e ↦
          let same : k ≡ key = (==_iff k key).0 e in
          let found : In id (old ++ x ∷ []) = rw e at moved in
          elim ((In-append id old (x ∷ [])).0 found) [
            | inl i ↦ inr (subst (λ j. In id (get_list (lookup d j))) same i)
            | inr (inl q) ↦ inl q
            | inr (inr n) ↦ absurd n
          ]
      | inr e ↦ inr (rw e at moved)
    ]

module _ (nx : MultiDiGraph) (laws : Laws nx) (lower : Text → Text) (str : AttrValue → Text) where
  index_node-DefinitionsKnown :
      (path : Text) (x : Node) (s : LinkState nx)
      → DefinitionsKnown nx laws s
      → DefinitionsKnown nx laws (index_node nx lower str path x s)
  unfolding index_node add_known
  index_node-DefinitionsKnown path x s h =
      if_intro (DefinitionsKnown nx laws) (has_key s.node_obj x.id) _ _ h (λ key id. (
        (λ i. ground (
          arith,
          In-appended s.definitions (x.kind, x.name) x.id key id i,
          h key id,
          has_key-insert s.node_obj x.id x id,
          ==_iff x.id id,
        )),
        (λ i. ground (
          arith,
          In-appended s.definitions_ci (x.kind, lower x.name) x.id key id i,
          h key id,
          has_key-insert s.node_obj x.id x id,
          ==_iff x.id id,
        )),
      ))

  index_nodes-DefinitionsKnown :
      (path : Text) (xs : List Node) (s : LinkState nx)
      → DefinitionsKnown nx laws s
      → DefinitionsKnown nx laws (index_nodes nx lower str path xs s)
  unfolding index_nodes
  index_nodes-DefinitionsKnown path [] s h = h
  index_nodes-DefinitionsKnown path (x ∷ xs) s h =
      index_nodes-DefinitionsKnown path xs (index_node nx lower str path x s)
        (index_node-DefinitionsKnown path x s h)

  index_files-DefinitionsKnown :
      (irs : List FileIr) (s : LinkState nx)
      → DefinitionsKnown nx laws s
      → DefinitionsKnown nx laws (index_files nx lower str irs s)
  unfolding index_files
  index_files-DefinitionsKnown [] s h = h
  index_files-DefinitionsKnown (ir ∷ irs) s h =
      index_files-DefinitionsKnown irs (index_nodes nx lower str ir.path ir.nodes s)
        (index_nodes-DefinitionsKnown ir.path ir.nodes s h)

  note_declared-Step :
      (e : Edge) (s : LinkState nx) → Step nx laws s (note_declared nx lower str e s)
  unfolding note_declared
  note_declared-Step e s =
      if_intro (Step nx laws s) (e.kind == EdgeKind.declares) _ _
        (record { after = λ h. (h, (λ n k. k), (refl, refl)) }) (stays nx laws s)

  add_locals-Step :
      (path : Text) (es : List Edge) (seen : List LocalKey) (s : LinkState nx)
      → Step nx laws s (add_locals nx lower str path es seen s).1
  unfolding add_locals
  add_locals-Step path [] seen s = stays nx laws s
  add_locals-Step path (e ∷ es) seen s =
      if_intro (λ (r : List LocalKey × LinkState nx). Step nx laws s r.1)
        (contains {A = LocalKey} seen ((e.src, e.dst), e.kind)) _ _ (add_locals-Step path es seen s)
        (then-Step nx laws s _ _ (add_ensured-Step nx laws lower str e path s)
          (then-Step nx laws _ _ _ (note_declared-Step e _) (add_locals-Step path es _ _)))

  add_files-Step :
      (irs : List FileIr) (seen : List LocalKey) (s : LinkState nx)
      → Step nx laws s (add_files nx lower str irs seen s)
  unfolding add_files
  add_files-Step [] seen s = stays nx laws s
  add_files-Step (ir ∷ irs) seen s =
      then-Step nx laws s _ _ (add_locals-Step ir.path ir.local_edges seen s)
        (add_files-Step irs _ _)

  pub init_linker-Sound : (irs : List FileIr) → Sound nx laws (init_linker nx lower str irs)
  unfolding init_linker lookup
  init_linker-Sound irs =
      let indexed = index_files nx lower str irs (blank nx lower str) in
      Step-Sound nx laws indexed (add_files nx lower str irs [] indexed)
        (
          index_files-IsComplete nx laws lower str irs (blank nx lower str)
              (blank-IsComplete nx laws lower str),
          index_files-DefinitionsKnown irs (blank nx lower str)
              (λ key id. ((λ i. absurd i), (λ i. absurd i))),
        )
        (add_files-Step irs [] indexed)
