-- ===== src/Analysis/Queries/Nets.antt =====
-- The names that a unit goes by in `_signal_unit_names` of src/hdl_kgraph/graph/analysis.py, and the
-- nets that `signal_drivers` picks by them.
use hdl_kgraph.Base.{
  ◌≡◌, ◌≢◌, ◌↔◌, ◌⊎◌, inl, inr, refl, ◌++◌, ◌||◌, true, Option, none, some, List, [], ◌∷◌, Text, In,
  In-append, In-map, In-map_of, In-filter, filter, map, contains, contains_iff, ◌==◌, ==_iff, sym,
  subst, arith, Bool-cases, nat_eq, list_eq, list_beq,
}
use hdl_kgraph.Schema.{
  Node, Edge, NodeKind, node_kind_eq, EdgeKind, edge_kind_eq, Language, language_eq,
}
use hdl_kgraph.Graph.{MultiDiGraph, Laws, data_of}
use hdl_kgraph.Analysis.Impact.{enclosing_unit}
use hdl_kgraph.Analysis.Queries.{
  is_wanted, nonempty, as_set, passes, name_of, implemented_names, signal_unit_names, folded,
}

In-as_set : (w t : Text) → In w (as_set (nonempty (some t))) ↔ ((w ≡ t) × (w ≢ []))
unfolding as_set nonempty list_beq
In-as_set w [] = ((λ i. absurd i), (λ (e, n). absurd (n e)))
In-as_set w (c ∷ t) =
    ((λ i. elim i [ inl e ↦ (e, (λ q. ground arith)) | inr n ↦ absurd n ]), (λ (e, n). inl e))

module _ (nx : MultiDiGraph) (lower : Text → Text) (g : nx.Graph) where
  -- The text as a node of the language spells it: a VHDL name is in lower case.
  abbrev pub Spells : Node → Text → Text → Type 0
  Spells x t w =
      ((x.language ≡ Language.vhdl) × (w ≡ lower t)) ⊎ ((x.language ≢ Language.vhdl) × (w ≡ t))

  folded_iff : (x : Node) (t w : Text) → (w ≡ folded nx lower g x t) ↔ Spells x t w
  unfolding folded
  folded_iff x t w = elim (Bool-cases (x.language == Language.vhdl)) [
    | inl e ↦
        let v = (==_iff x.language Language.vhdl).0 e in
        rw e ((λ q. inl (v, q)), (λ h. elim h [ inl (_, q) ↦ q | inr (n, _) ↦ absurd (n v) ]))
    | inr e ↦
        let n : x.language ≢ Language.vhdl =
          (λ v. let b = (==_iff x.language Language.vhdl).1 v in absurd (ground arith)) in
        rw e ((λ q. inr (n, q)), (λ h. elim h [ inl (v, _) ↦ absurd (n v) | inr (_, q) ↦ q ]))
  ]

  -- A name that a unit goes by: its own, or for an architecture that of an entity it implements.
  abbrev pub GoesBy : Option Text → Text → Type 0
  GoesBy unit w =
      (owner : Text) × (unit ≡ some owner)
      × (owner ≢ [])
      × (((w ≡ (data_of nx g owner).name) × (w ≢ []))
          ⊎ (((data_of nx g owner).kind ≡ NodeKind.architecture)
              × (e : Edge) × In e (nx.edges g)
              × (e.src ≡ owner)
              × (e.kind ≡ EdgeKind.implements)
              × (w ≡ (data_of nx g e.dst).name)))

module _ (nx : MultiDiGraph) (laws : Laws nx) (lower : Text → Text) (g : nx.Graph) where
  In-implemented_names :
      (w u : Text)
      → In w (implemented_names nx lower g (some u)) ↔ (
          ((data_of nx g u).kind ≡ NodeKind.architecture)
          × (e : Edge) × In e (nx.edges g)
          × (e.src ≡ u)
          × (e.kind ≡ EdgeKind.implements)
          × (w ≡ (data_of nx g e.dst).name))
  unfolding implemented_names
  In-implemented_names w u =
      let kind = (data_of nx g u).kind in
      let out = nx.out_edges g u in
      let p = λ (e : Edge). e.kind == EdgeKind.implements in
      let f = λ (e : Edge). (data_of nx g e.dst).name in
      elim (Bool-cases (kind == NodeKind.architecture)) [
        | inl t ↦ rw t (
          (λ i.
              let (e, j, q) = In-map f w (filter p out) i in
              let (l, k) = (In-filter p e out).0 j in
              let (m, s) = (laws.out_edges_iff g u e).0 l in
              (
                (==_iff kind NodeKind.architecture).0 t,
                e,
                m,
                s,
                (==_iff e.kind EdgeKind.implements).0 k,
                q,
              )),
          (λ (_, e, m, s, k, q).
              let j =
                (In-filter p e out).1
                  ((laws.out_edges_iff g u e).1 (m, s), (==_iff e.kind EdgeKind.implements).1 k) in
              subst (λ v. In v (map f (filter p out))) (sym q) (In-map_of f e (filter p out) j)),
        )
        | inr t ↦ rw t (
          (λ i. absurd i),
          (λ (a, _, _, _, _, _).
              let b = (==_iff kind NodeKind.architecture).1 a in absurd (ground arith)),
        )
      ]

  named_by :
      (w u owner : Text)
      → owner ≡ u
      → ((w ≡ (data_of nx g owner).name) × (w ≢ []))
        ⊎ (((data_of nx g owner).kind ≡ NodeKind.architecture)
            × (e : Edge) × In e (nx.edges g)
            × (e.src ≡ owner)
            × (e.kind ≡ EdgeKind.implements)
            × (w ≡ (data_of nx g e.dst).name))
      → In w (as_set (nonempty (some (data_of nx g u).name)))
        ⊎ In w (implemented_names nx lower g (some u))
  named_by w u owner q (inl h) = inl (
      (In-as_set w (data_of nx g u).name).1
        (subst (λ v. (w ≡ (data_of nx g v).name) × (w ≢ [])) q h))
  named_by w u owner q (inr h) = inr (
      (In-implemented_names w u).1 (
        subst
          (λ v.
            ((data_of nx g v).kind ≡ NodeKind.architecture)
            × (e : Edge) × In e (nx.edges g)
            × (e.src ≡ v)
            × (e.kind ≡ EdgeKind.implements)
            × (w ≡ (data_of nx g e.dst).name))
          q h))

  -- What `_signal_unit_names` puts in its set.
  names_of : Option Text → List Text
  names_of o = as_set (nonempty (name_of nx lower g o)) ++ implemented_names nx lower g o

  In-names_of : (w : Text) (o : Option Text) → In w (names_of (nonempty o)) ↔ GoesBy nx lower g o w
  unfolding names_of nonempty name_of list_beq as_set implemented_names
  In-names_of w none = ((λ i. absurd i), (λ (u, e, n, h). absurd (ground arith)))
  In-names_of w (some []) =
      ((λ i. absurd i), (λ (u, e, n, h). let q : u ≡ [] = ground arith in absurd (n q)))
  In-names_of w (some (c ∷ u)) =
      let own = as_set (nonempty (some (data_of nx g (c ∷ u)).name)) in
      let more = implemented_names nx lower g (some (c ∷ u)) in
      (
        (λ i. (
          c ∷ u,
          refl,
          (λ q. ground arith),
          elim ((In-append w own more).0 i) [
            | inl j ↦ inl ((In-as_set w (data_of nx g (c ∷ u)).name).0 j)
            | inr j ↦ inr ((In-implemented_names w (c ∷ u)).0 j)
          ],
        )),
        (λ (owner, e, n, h).
            let same : owner ≡ c ∷ u = ground arith in
            (In-append w own more).1 (named_by w (c ∷ u) owner same h)),
      )

  -- The node is a net of the name, and one of a unit of the given name where one is given.
  abbrev pub IsNet : Text → Option Text → Node → Type 0
  IsNet signal unit x =
      ((x.kind ≡ NodeKind.signal) ⊎ (x.kind ≡ NodeKind.port))
      × Spells nx lower g x signal x.name
      × ((u : Text)
          → unit ≡ some u
          → (w : Text) × Spells nx lower g x u w × GoesBy nx lower g (enclosing_unit nx g x.id) w)

  unit_passes :
      (unit : Option Text) (x : Node)
      → (passes (elim unit [
        | none ↦ none
        | some u ↦ some (contains (signal_unit_names nx lower g x.id).1 (folded nx lower g x u))
      ])
          ≡ true)
        ↔ ((u : Text)
            → unit ≡ some u
            → (w : Text) × Spells nx lower g x u w × GoesBy nx lower g (enclosing_unit nx g x.id) w)
  unfolding passes signal_unit_names names_of
  unit_passes none x = ((λ _ u e. absurd (ground arith)), (λ _. refl))
  unit_passes (some v) x =
      let names = (signal_unit_names nx lower g x.id).1 in
      let word = folded nx lower g x v in
      (
        (λ h u e.
            let same : u ≡ v = ground arith in
            (
              word,
              subst (λ y. Spells nx lower g x y word) (sym same)
                  ((folded_iff nx lower g x v word).0 refl),
              (In-names_of word (enclosing_unit nx g x.id)).0 ((contains_iff names word).0 h),
            )),
        (λ k.
            let (w, s, b) = k v refl in
            let same = (folded_iff nx lower g x v w).1 s in
            (contains_iff names word).1
              (subst (λ y. In y names) same ((In-names_of w (enclosing_unit nx g x.id)).1 b))),
      )

  pub is_wanted_iff :
      (signal : Text) (unit : Option Text) (x : Node)
      → (is_wanted nx lower g signal unit x ≡ true) ↔ IsNet signal unit x
  unfolding is_wanted
  is_wanted_iff signal unit x = (
    (λ h.
        let (k, n, p) : ((x.kind == NodeKind.signal || x.kind == NodeKind.port) ≡ true)
            × ((x.name == folded nx lower g x signal) ≡ true)
            × (passes (elim unit [
              | none ↦ none
              | some u ↦
                  some (contains (signal_unit_names nx lower g x.id).1 (folded nx lower g x u))
            ])
                ≡ true) =
          ground arith in
        (
          ground (arith, ==_iff x.kind NodeKind.signal, ==_iff x.kind NodeKind.port),
          (folded_iff nx lower g x signal x.name).0
              ((==_iff x.name (folded nx lower g x signal)).0 n),
          (unit_passes unit x).0 p,
        )),
    (λ (k, n, p).
        let b =
          (==_iff x.name (folded nx lower g x signal)).1
            ((folded_iff nx lower g x signal x.name).1 n) in
        let c = (unit_passes unit x).1 p in
        ground (arith, ==_iff x.kind NodeKind.signal, ==_iff x.kind NodeKind.port)),
  )
