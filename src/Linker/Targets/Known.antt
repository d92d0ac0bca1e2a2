-- ===== src/Linker/Targets/Known.antt =====
-- The candidates of src/hdl_kgraph/graph/builder.py are nodes of the graph, through every filter and
-- every choice among them.
use hdl_kgraph.Base.{
  ◌≡◌, ◌∙◌, refl, inl, inr, Bool, Option, none, some, List, [], ◌∷◌, Text, In, In-filter,
  In-flat_map, filter, nat_eq, list_eq, if_intro, arith, codes, leb, length, subst, sym,
}
use hdl_kgraph.Schema.{Node, NodeKind, AttrValue, Attrs, get_attr, truthy}
use hdl_kgraph.Ir.{UnresolvedRef}
use hdl_kgraph.Graph.{MultiDiGraph, Laws}
use hdl_kgraph.Linker.Kinds.{sv_instantiable}
use hdl_kgraph.Linker.Store.{LinkState, obj_of, checked, ensure_stub}
use hdl_kgraph.Linker.Store.Complete.{IsComplete}
use hdl_kgraph.Linker.Store.Growth.{
  Knows, Step, stays, Sound, DefinitionsKnown, ensure_stub-Step, ensure_stub-Knows,
}
use hdl_kgraph.Linker.Targets.{
  Scored, or_else, filter_library, filter_foreign, score, cross_scored, cross_language, named,
  cross_or_entity, entity_among, resolve_entity_name, of_configuration, among_configurations,
  resolve_via_configuration, record_binding, with_attrs, configurations_read,
}
use hdl_kgraph.Linker.Targets.Score.{score-Contract}

-- What stands in the one list stands in the other.
abbrev pub Among : List Text → List Text → Type 0
Among xs ys = (c : Text) → In c xs → In c ys

pub filter-Among : (p : Text → Bool) (xs : List Text) → Among (filter p xs) xs
filter-Among p xs c i = ((In-filter p c xs).0 i).0

pub or_else-Among : (xs ys zs : List Text) → Among xs zs → Among ys zs → Among (or_else xs ys) zs
unfolding or_else
or_else-Among [] ys zs h k = k
or_else-Among (x ∷ xs) ys zs h k = h

module _ (nx : MultiDiGraph) (lower : Text → Text) (str : AttrValue → Text) (s : LinkState nx) where
  pub filter_library-Among :
      (cs : List Text) (library : Option Text) (src_id : Text)
      → Among (filter_library nx lower str s cs library src_id) cs
  unfolding filter_library
  filter_library-Among cs none src_id c i = i
  filter_library-Among cs (some library) src_id c i =
      if_intro (λ (xs : List Text). Among xs cs) (leb (length cs) 1) _ _ (λ c i. i)
        (or_else-Among _ cs cs (filter-Among _ cs) (λ c i. i)) c i

  pub filter_foreign-Among :
      (ref : UnresolvedRef) (cs : List Text) → Among (filter_foreign nx lower str s ref cs) cs
  unfolding filter_foreign
  filter_foreign-Among ref cs =
      if_intro (λ (xs : List Text). Among xs cs) (truthy (get_attr ref.attrs (codes "dpi_export")))
        _ _ (filter-Among _ cs)
        (or_else-Among _ _ cs (λ c i. filter-Among _ cs c (filter-Among _ (filter _ cs) c i))
          (filter-Among _ cs))

  pub score-Among : (cs : List Text) (src_id : Text) → Among (score nx lower str s cs src_id).0 cs
  score-Among cs src_id c i = elim (score-Contract nx lower str s src_id cs) [
    | inl e ↦ subst (λ (r : Scored). In c r.0) e i
    | inr (d, j, e) ↦
        let k : In c (d ∷ []) = subst (λ (r : Scored). In c r.0) e i in
        elim k [ inl q ↦ subst (λ x. In x cs) (sym q) j | inr n ↦ absurd n ]
  ]

module _ (nx : MultiDiGraph) (laws : Laws nx) (lower : Text → Text) (str : AttrValue → Text) where
  -- Every id of the list is a node.
  abbrev pub AllKnown : LinkState nx → List Text → Type 0
  AllKnown s ids = (id : Text) → In id ids → Knows nx s id

  -- A step to a state that knows what was found.
  abbrev pub Finds : LinkState nx → List Text → LinkState nx → Type 0
  Finds s ids t = Step nx laws s t × AllKnown t ids

  pub named-AllKnown :
      (s : LinkState nx) (kinds : List NodeKind) (name : Text)
      → DefinitionsKnown nx laws s
      → AllKnown s (named nx lower str s kinds name)
  unfolding named
  named-AllKnown s kinds name h id i =
      let (kind, _, j) = In-flat_map _ id kinds i in (h (kind, name) id).0 j

  cross_scored-Among :
      (cs : List Text) (r : Scored)
      → cross_scored nx lower str cs ≡ some r
      → (d : Text) → In d r.0
      → In d cs
  unfolding cross_scored
  cross_scored-Among [] r e d i = absurd (ground arith)
  cross_scored-Among (c ∷ []) r e d i =
      let same : r.0 ≡ c ∷ [] = ground arith in subst (λ xs. In d xs) same i
  cross_scored-Among (c ∷ b ∷ cs) r e d i =
      let same : r.0 ≡ c ∷ b ∷ cs = ground arith in subst (λ xs. In d xs) same i

  pub cross_language-AllKnown :
      (s : LinkState nx) (kinds : List NodeKind) (name : Text) (r : Scored)
      → DefinitionsKnown nx laws s
      → cross_language nx lower str s kinds name ≡ some r
      → AllKnown s r.0
  unfolding cross_language
  cross_language-AllKnown s kinds name r h e id i =
      let (kind, _, j) = In-flat_map _ id kinds (cross_scored-Among _ r e id i) in
      (h (kind, lower name) id).1 j

  -- The result of a choice that may make a stub.
  abbrev pub Chosen : LinkState nx → Scored × LinkState nx → Type 0
  Chosen s r = Finds s r.0.0 r.1

  -- What was a node already, in a state that is not changed.
  pub unchanged : (s : LinkState nx) (ids : List Text) → AllKnown s ids → Finds s ids s
  unchanged s ids k = (stays nx laws s, k)

  pub made_stub :
      (kind : NodeKind) (qualified name : Text) (s : LinkState nx)
      → IsComplete nx laws s
      → let (id, t) = ensure_stub nx lower str kind qualified name s in Finds s (id ∷ []) t
  made_stub kind qualified name s h = (
    ensure_stub-Step nx laws lower str kind qualified name s,
    (λ id i. elim i [
      | inl e ↦
          subst (λ x. Knows nx (ensure_stub nx lower str kind qualified name s).1 x) (sym e)
            (ensure_stub-Knows nx laws lower str kind qualified name s h)
      | inr n ↦ absurd n
    ]),
  )

  entity_of :
      (o : Option Scored) (name : Text) (s : LinkState nx)
      → IsComplete nx laws s
      → ((r : Scored) → o ≡ some r → AllKnown s r.0)
      → Chosen s (cross_or_entity nx lower str o name s)
  unfolding cross_or_entity
  entity_of none name s h k = made_stub NodeKind.entity name name s h
  entity_of (some r) name s h k = unchanged s r.0 (k r refl)

  entity_among-Chosen :
      (cs : List Text) (name : Text) (ref : UnresolvedRef) (s : LinkState nx)
      → Sound nx laws s
      → AllKnown s cs
      → Chosen s (entity_among nx lower str cs name ref s)
  unfolding entity_among
  entity_among-Chosen [] name ref s (h, d) k =
      entity_of (cross_language nx lower str s sv_instantiable name) name s h
        (λ r e. cross_language-AllKnown s sv_instantiable name r d e)
  entity_among-Chosen (c ∷ cs) name ref s (h, d) k =
      unchanged s (score nx lower str s (c ∷ cs) ref.src_id).0
        (λ id i. k id (score-Among nx lower str s (c ∷ cs) ref.src_id id i))

  pub filtered-AllKnown :
      (s : LinkState nx) (kinds : List NodeKind) (name : Text) (library : Option Text)
      (src_id : Text)
      → DefinitionsKnown nx laws s
      → AllKnown s (filter_library nx lower str s (named nx lower str s kinds name) library src_id)
  filtered-AllKnown s kinds name library src_id d id i =
      named-AllKnown s kinds name d id (filter_library-Among nx lower str s _ library src_id id i)

  -- What is asked for is all there.
  pub checked-known :
      {A : Type 0} (s : LinkState nx) (ids : List Text) (o : Option A)
      → AllKnown s ids
      → checked nx lower str s ids o ≡ o
  unfolding checked
  checked-known s [] o k = refl
  checked-known s (id ∷ ids) o k = rw (k id (inl refl)) (checked-known s ids o (λ x i. k x (inr i)))

  -- The call raises no `KeyError`, and what it returns is known.
  abbrev Choice : LinkState nx → Option (Scored × LinkState nx) → Type 0
  Choice s o = (r : Scored × LinkState nx) × (o ≡ some r) × Chosen s r

  pub resolve_entity_name-Choice :
      (name : Text) (ref : UnresolvedRef) (library : Option Text) (s : LinkState nx)
      → Sound nx laws s
      → Choice s (resolve_entity_name nx lower str name ref library s)
  unfolding resolve_entity_name
  resolve_entity_name-Choice name ref library s h =
      let candidates = named nx lower str s (NodeKind.entity ∷ []) name in
      (
        _,
        checked-known s candidates _ (named-AllKnown s (NodeKind.entity ∷ []) name h.1),
        entity_among-Chosen _ name ref s h
            (filtered-AllKnown s (NodeKind.entity ∷ []) name library ref.src_id h.1),
      )

  -- The same with the attributes of the edge.
  abbrev pub ChosenWith : LinkState nx → (Scored × Attrs) × LinkState nx → Type 0
  ChosenWith s r = Finds s r.0.0.0 r.1

  abbrev pub Chooses : LinkState nx → Option ((Scored × Attrs) × LinkState nx) → Type 0
  Chooses s o = (r : (Scored × Attrs) × LinkState nx) × (o ≡ some r) × ChosenWith s r

  pub with_attrs-Chooses :
      (s : LinkState nx) (extra : Attrs) (o : Option (Scored × LinkState nx))
      → Choice s o
      → Chooses s (with_attrs nx lower str extra o)
  unfolding with_attrs
  with_attrs-Chooses s extra o (r, e, c) = (((r.0, extra), r.1), rw e refl, c)

  pub checked-Chooses :
      (s : LinkState nx) (ids : List Text) (o : Option ((Scored × Attrs) × LinkState nx))
      → AllKnown s ids
      → Chooses s o
      → Chooses s (checked nx lower str s ids o)
  checked-Chooses s ids o k (r, e, c) = (r, checked-known s ids o k ∙ e, c)

  of_configuration-Chooses :
      (c : Text) (cfg : Node) (ref : UnresolvedRef) (s : LinkState nx)
      → Sound nx laws s
      → Knows nx s c
      → Chooses s (of_configuration nx lower str c cfg ref s)
  unfolding of_configuration
  of_configuration-Chooses c cfg ref s h k =
      if_intro (Chooses s) (truthy (get_attr cfg.attrs (codes "of_entity"))) _ _
        (with_attrs-Chooses s _ _ (resolve_entity_name-Choice _ ref _ s h))
        (
          _,
          refl,
          unchanged s (c ∷ [])
              (λ id i. elim i [ inl e ↦ subst (λ x. Knows nx s x) (sym e) k | inr n ↦ absurd n ]),
        )

  among_configurations-Chooses :
      (cs : List Text) (ref : UnresolvedRef) (s : LinkState nx)
      → Sound nx laws s
      → AllKnown s cs
      → Chooses s (among_configurations nx lower str cs ref s)
  unfolding among_configurations
  among_configurations-Chooses [] ref s h k =
      (_, refl, made_stub NodeKind.configuration ref.target_name ref.target_name s h.0)
  among_configurations-Chooses (c ∷ []) ref s h k =
      of_configuration-Chooses c (obj_of nx lower str s c) ref s h (k c (inl refl))
  among_configurations-Chooses (c ∷ d ∷ cs) ref s h k = (_, refl, unchanged s (c ∷ d ∷ cs) k)

  configurations_read-Among :
      (cs : List Text) (library : Option Text)
      → Among (configurations_read nx lower str cs library) cs
  unfolding configurations_read
  configurations_read-Among (c ∷ []) library id i = i
  configurations_read-Among [] none id i = absurd i
  configurations_read-Among [] (some library) id i = i
  configurations_read-Among (c ∷ d ∷ cs) none id i = absurd i
  configurations_read-Among (c ∷ d ∷ cs) (some library) id i = i

  pub resolve_via_configuration-Chooses :
      (ref : UnresolvedRef) (library : Option Text) (s : LinkState nx)
      → Sound nx laws s
      → Chooses s (resolve_via_configuration nx lower str ref library s)
  unfolding resolve_via_configuration
  resolve_via_configuration-Chooses ref library s h =
      let kinds = NodeKind.configuration ∷ [] in
      let configs = named nx lower str s kinds ref.target_name in
      checked-Chooses s _ _
        (λ id i.
          named-AllKnown s kinds ref.target_name h.1 id
            (configurations_read-Among configs library id i))
        (among_configurations-Chooses _ ref s h
          (filtered-AllKnown s kinds ref.target_name library ref.src_id h.1))

  pub record_binding-Step :
      (ref : UnresolvedRef) (s : LinkState nx) → Step nx laws s (record_binding nx lower str ref s)
  unfolding record_binding
  record_binding-Step ref s =
      if_intro (Step nx laws s) _ _ _ (record { after = λ h. (h, (λ n k. k), (refl, refl)) })
        (stays nx laws s)
