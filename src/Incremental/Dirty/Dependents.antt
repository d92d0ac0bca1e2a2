-- ===== src/Incremental/Dirty/Dependents.antt =====
-- What `dependents` of `dirty_closure` lists, against the include and macro edges of the graph.
use hdl_kgraph.Base.{
  refl, if◌then◌else◌, ◌≡◌, ◌↔◌, ◌⊎◌, inl, inr, ap, true, some, List, [], ◌∷◌, ◌++◌, Text, codes,
  keys, In, In-append, In-filter_map, In-filter_map_of, In-flat_map, In-flat_map_of, filter_map,
  flat_map, strip_prefix, strip_prefix-append, arith, ==_iff, ◌==◌, Bool-cases, Option-cases,
  nat_eq, list_eq,
}
use hdl_kgraph.Schema.{Node, Edge, EdgeKind, edge_kind_eq}
use hdl_kgraph.Ids.{file_node_id}
use hdl_kgraph.Graph.{MultiDiGraph, Laws, data_of}
use hdl_kgraph.Incremental.Dirty.{
  file_relpath, Dependent, includer, macro_user, macro_users, users_of, all_macro_users, dependents,
}

-- `file_relpath` undoes `file_node_id`, and accepts nothing else.
strip_prefix_inv : (p t r : Text) → strip_prefix p t ≡ some r → t ≡ p ++ r
unfolding strip_prefix
strip_prefix_inv [] t r h = ground arith
strip_prefix_inv (c ∷ p) [] r h = cc
strip_prefix_inv (c ∷ p) (d ∷ t) r h = ground (arith, strip_prefix_inv p t r, ==_iff c d)

pub file_relpath_iff : (t r : Text) → (file_relpath t ≡ some r) ↔ (t ≡ file_node_id r)
unfolding file_relpath file_node_id
file_relpath_iff t r =
    (strip_prefix_inv (codes "file:") t r, λ e. rw e (strip_prefix-append (codes "file:") r))

module _ (nx : MultiDiGraph) (g : nx.Graph) where
  -- File `b` has to be parsed again when file `a` changes: it includes `a`, or it uses a macro that
  -- `a` defines.
  pub data Depends (a b : Text) : Type 0 where
    includes :
        (e : Edge)
        → In e (nx.edges g)
        → e.kind ≡ EdgeKind.includes
        → e.src ≡ file_node_id b
        → e.dst ≡ file_node_id a
        → Depends a b
    uses_macro :
        (d u : Edge)
        → In d (nx.edges g)
        → In u (nx.edges g)
        → d.kind ≡ EdgeKind.defines_macro
        → u.kind ≡ EdgeKind.uses_macro
        → d.src ≡ file_node_id a
        → u.src ≡ file_node_id b
        → u.dst ≡ d.dst
        → Depends a b

In-keys : (b : Text) (ds : List Dependent) → In b (keys ds) → (why : Text) × In (b, why) ds
unfolding keys
In-keys b [] h = absurd h
In-keys b ((c, why) ∷ ds) (inl e) = (why, inl (ap (λ (x : Text). (x, why)) e))
In-keys b ((c, why) ∷ ds) (inr m) = let (w, i) = In-keys b ds m in (w, inr i)

In-keys_of : (b why : Text) (ds : List Dependent) → In (b, why) ds → In b (keys ds)
unfolding keys
In-keys_of b why [] h = absurd h
In-keys_of b why ((c, w) ∷ ds) (inl e) = inl (ap (λ (x : Dependent). x.0) e)
In-keys_of b why ((c, w) ∷ ds) (inr m) = inr (In-keys_of b why ds m)

includer-eq-some :
    (a b why : Text) (e : Edge)
    → includer a e ≡ some (b, why)
    → (e.kind ≡ EdgeKind.includes) × (e.src ≡ file_node_id b)
unfolding includer
includer-eq-some a b why e h = ground (
  arith,
  ==_iff e.kind EdgeKind.includes,
  Option-cases (file_relpath e.src),
  file_relpath_iff e.src b,
)

includer_of :
    (a b : Text) (e : Edge)
    → e.kind ≡ EdgeKind.includes
    → e.src ≡ file_node_id b
    → includer a e ≡ some (b, codes "includes " ++ a)
unfolding includer
includer_of a b e k s = ground (arith, ==_iff e.kind EdgeKind.includes, file_relpath_iff e.src b)

macro_user-eq-some :
    (name b why : Text) (u : Edge)
    → macro_user name u ≡ some (b, why)
    → (u.kind ≡ EdgeKind.uses_macro) × (u.src ≡ file_node_id b)
unfolding macro_user
macro_user-eq-some name b why u h = ground (
  arith,
  ==_iff u.kind EdgeKind.uses_macro,
  Option-cases (file_relpath u.src),
  file_relpath_iff u.src b,
)

macro_user_of :
    (name b : Text) (u : Edge)
    → u.kind ≡ EdgeKind.uses_macro
    → u.src ≡ file_node_id b
    → macro_user name u ≡ some (b, codes "uses `" ++ name)
unfolding macro_user
macro_user_of name b u k s =
    ground (arith, ==_iff u.kind EdgeKind.uses_macro, file_relpath_iff u.src b)

module _ (nx : MultiDiGraph) (g : nx.Graph) where
  -- What `macro_users` and `dependents` list where every macro carries data.
  named_users : Edge → List Dependent
  named_users d =
      if d.kind == EdgeKind.defines_macro
      then filter_map (macro_user (data_of nx g d.dst).name) (nx.in_edges g d.dst)
      else []

  pub found_dependents : Text → List Dependent
  unfolding named_users
  found_dependents relpath =
      let file_id = file_node_id relpath in
      if nx.has_node g file_id
      then filter_map (includer relpath) (nx.in_edges g file_id)
        ++ flat_map named_users (nx.out_edges g file_id)
      else []

  -- The node of every macro that an edge defines carries data.
  abbrev pub HasMacros : Type 0
  HasMacros =
      (d : Edge)
      → In d (nx.edges g)
      → d.kind ≡ EdgeKind.defines_macro
      → (x : Node) × (nx.node g d.dst ≡ some x)

module _ (nx : MultiDiGraph) (laws : Laws nx) (g : nx.Graph) (h : HasMacros nx g) where
  data_of-node : (id : Text) (x : Node) → nx.node g id ≡ some x → data_of nx g id ≡ x
  unfolding data_of
  data_of-node id x q = rw (data_of, q) refl

  macro_users_lem : (d : Edge) → In d (nx.edges g) → macro_users nx g d ≡ some (named_users nx g d)
  unfolding macro_users named_users users_of
  macro_users_lem d i = elim (Bool-cases (d.kind == EdgeKind.defines_macro)) [
    | inl e ↦
        let (x, q) = h d i ((==_iff d.kind EdgeKind.defines_macro).0 e) in
        rw e (rw q (rw (data_of-node d.dst x q) refl))
    | inr e ↦ rw e refl
  ]

  all_macro_users_lem :
      (ds : List Edge)
      → ((d : Edge) → In d ds → In d (nx.edges g))
      → all_macro_users nx g ds ≡ some (flat_map (named_users nx g) ds)
  unfolding all_macro_users
  all_macro_users_lem [] k = refl
  all_macro_users_lem (d ∷ ds) k =
      rw (macro_users_lem d (k d (inl refl)))
        (rw (all_macro_users_lem ds (λ x i. k x (inr i))) refl)

  pub dependents_lem : (a : Text) → dependents nx g a ≡ some (found_dependents nx g a)
  unfolding dependents found_dependents
  dependents_lem a = elim (Bool-cases (nx.has_node g (file_node_id a))) [
    | inl e ↦ rw e (
        rw
          (all_macro_users_lem (nx.out_edges g (file_node_id a))
            (λ d i. ((laws.out_edges_iff g (file_node_id a) d).0 i).0))
          refl)
    | inr e ↦ rw e refl
  ]

module _ (nx : MultiDiGraph) (laws : Laws nx) (g : nx.Graph) where
  named_users→Depends :
      (a b why : Text) (d : Edge)
      → In d (nx.edges g)
      → d.src ≡ file_node_id a
      → In (b, why) (named_users nx g d)
      → Depends nx g a b
  unfolding named_users
  named_users→Depends a b why d hd s m = elim (Bool-cases (d.kind == EdgeKind.defines_macro)) [
    | inr no_macro ↦
        let none_left : In {A = Dependent} (b, why) [] = rw no_macro at m in absurd none_left
    | inl defines ↦
        let users : In (b, why)
            (filter_map (macro_user (data_of nx g d.dst).name) (nx.in_edges g d.dst)) =
          rw defines at m in
        let (u, hu, e) =
          In-filter_map (macro_user (data_of nx g d.dst).name) (b, why) (nx.in_edges g d.dst)
            users in
        let at_macro = (laws.in_edges_iff g d.dst u).0 hu in
        let user = macro_user-eq-some (data_of nx g d.dst).name b why u e in
        uses_macro d u hd at_macro.0 ((==_iff d.kind EdgeKind.defines_macro).0 defines) user.0 s
          user.1 at_macro.1
  ]

  dependents→Depends : (a b : Text) → In b (keys (found_dependents nx g a)) → Depends nx g a b
  unfolding found_dependents
  dependents→Depends a b m = elim (Bool-cases (nx.has_node g (file_node_id a))) [
    | inr absent ↦
        let none_left : In b (keys {V = Text} []) = rw absent at m in
        absurd (unfold keys in none_left)
    | inl there ↦
        let file_id = file_node_id a in
        let direct = filter_map (includer a) (nx.in_edges g file_id) in
        let through = flat_map (named_users nx g) (nx.out_edges g file_id) in
        let found : In b (keys (direct ++ through)) = rw there at m in
        let (why, i) = In-keys b (direct ++ through) found in
        elim ((In-append (b, why) direct through).0 i) [
          | inl inc ↦
              let (e, he, q) = In-filter_map (includer a) (b, why) (nx.in_edges g file_id) inc in
              let at_file = (laws.in_edges_iff g file_id e).0 he in
              let edge = includer-eq-some a b why e q in
              includes e at_file.0 edge.0 edge.1 at_file.1
          | inr mac ↦
              let (d, hd, q) =
                In-flat_map (named_users nx g) (b, why) (nx.out_edges g file_id) mac in
              let at_file = (laws.out_edges_iff g file_id d).0 hd in
              named_users→Depends a b why d at_file.0 at_file.1 q
        ]
  ]

  dependents-found :
      (a b why : Text)
      → nx.has_node g (file_node_id a) ≡ true
      → In (b, why) (filter_map (includer a) (nx.in_edges g (file_node_id a)))
        ⊎ In (b, why) (flat_map (named_users nx g) (nx.out_edges g (file_node_id a)))
      → In b (keys (found_dependents nx g a))
  unfolding found_dependents
  dependents-found a b why there m = rw there (In-keys_of b why _ ((In-append (b, why) _ _).1 m))

  named_users_of :
      (d : Edge) (x : Dependent)
      → In x (filter_map (macro_user (data_of nx g d.dst).name) (nx.in_edges g d.dst))
      → d.kind ≡ EdgeKind.defines_macro
      → In x (named_users nx g d)
  unfolding named_users
  named_users_of d x i k = rw ((==_iff d.kind EdgeKind.defines_macro).1 k) i

  Depends→dependents : (a b : Text) → Depends nx g a b → In b (keys (found_dependents nx g a))
  Depends→dependents a b (includes e he k s t) =
      dependents-found a b (codes "includes " ++ a) (rw (← t) (laws.edge_ends g e he).1) (
        inl (
          In-filter_map_of (includer a) e (b, codes "includes " ++ a) _
            ((laws.in_edges_iff g (file_node_id a) e).1 (he, t)) (includer_of a b e k s)))
  Depends→dependents a b (uses_macro d u hd hu kd ku sd su du) =
      let name = (data_of nx g d.dst).name in
      let user =
        In-filter_map_of (macro_user name) u (b, codes "uses `" ++ name) (nx.in_edges g d.dst)
          ((laws.in_edges_iff g d.dst u).1 (hu, du)) (macro_user_of name b u ku su) in
      dependents-found a b (codes "uses `" ++ name) (rw (← sd) (laws.edge_ends g d hd).0) (
        inr (
          In-flat_map_of (named_users nx g) d (b, codes "uses `" ++ name) _
            ((laws.out_edges_iff g (file_node_id a) d).1 (hd, sd))
            (named_users_of d (b, codes "uses `" ++ name) user kd)))

  pub found_dependents_iff : (a b : Text) → In b (keys (found_dependents nx g a)) ↔ Depends nx g a b
  found_dependents_iff a b = (dependents→Depends a b, Depends→dependents a b)

  -- Where every macro that an edge defines carries data, the expansion of a file raises no `KeyError`,
  -- and it lists exactly the files that depend on the given one.
  pub dependents_iff :
      HasMacros nx g
      → (a b : Text)
      → (ds : List Dependent) × (dependents nx g a ≡ some ds) × (In b (keys ds) ↔ Depends nx g a b)
  dependents_iff h a b =
      (found_dependents nx g a, dependents_lem nx laws g h a, found_dependents_iff a b)
