-- ===== src/Analysis/Queries/Drivers.antt =====
-- What `signal_drivers` of src/hdl_kgraph/graph/analysis.py reports.
use hdl_kgraph.Base.{
  ◌≡◌, ◌↔◌, ◌⊎◌, inl, inr, refl, ap, ◌∙◌, Bool, true, false, Option, none, some, [], ◌∷◌, Text,
  codes, In, In-sort_by, In-flat_map, In-flat_map_of, In-map, In-map_of, In-filter, flat_map,
  filter, ◌==◌, ==_iff, sym, subst, arith, nat_eq, list_eq, list_beq,
}
use hdl_kgraph.Schema.{
  Node, Edge, node_kind_eq, EdgeKind, edge_kind_eq, language_eq, AttrValue, get_attr,
}
use hdl_kgraph.Schema.NodeKindEnum
use hdl_kgraph.Graph.{MultiDiGraph, Laws, data_of}
use hdl_kgraph.Analysis.Impact.{enclosing_unit}
use hdl_kgraph.Analysis.Queries.Nets.{IsNet, is_wanted_iff}
use hdl_kgraph.Analysis.Queries.{
  DriverRecord, driver_leb, is_wanted, driver_record, flow_kind, records_of, signal_drivers,
  nonempty, name_of, signal_unit_names,
}

-- The flow that is asked for.
abbrev pub IsFlow : Bool → EdgeKind → Type 0
IsFlow readers kind =
    ((readers ≡ true) × (kind ≡ EdgeKind.reads)) ⊎ ((readers ≡ false) × (kind ≡ EdgeKind.drives))

module _ (nx : MultiDiGraph) (lower : Text → Text) (g : nx.Graph) where
  flow_kind_iff :
      (readers : Bool) (kind : EdgeKind)
      → (kind ≡ flow_kind nx lower g readers) ↔ IsFlow readers kind
  unfolding flow_kind
  flow_kind_iff true kind = ((λ e. inl (refl, e)), (λ h. ground arith))
  flow_kind_iff false kind = ((λ e. inr (refl, e)), (λ h. ground arith))

  -- The record of an edge from a site into a net.
  abbrev pub written : Node → Node → Edge → DriverRecord
  written x site e = record {
    signal_id = x.id;
    signal = x.qualified_name;
    unit_name = elim (enclosing_unit nx g x.id) [
      | none ↦ none
      | some [] ↦ none
      | some (c ∷ u) ↦ some (data_of nx g (c ∷ u)).name
    ];
    site_id = e.src;
    site = site.qualified_name;
    site_kind = NodeKindEnum.value site.kind;
    file = site.file;
    line = elim (get_attr e.attrs (codes "line_span")) [
      | AttrValue.span lines ↦ lines.0
      | v ↦ site.line_span.0
    ];
    confidence = e.confidence;
  }

  unit_name_lem :
      (o : Option Text)
      → name_of nx lower g (nonempty o)
        ≡ elim o [ none ↦ none | some [] ↦ none | some (c ∷ u) ↦ some (data_of nx g (c ∷ u)).name ]
  unfolding name_of nonempty list_beq
  unit_name_lem none = refl
  unit_name_lem (some []) = refl
  unit_name_lem (some (c ∷ u)) = refl

  driver_record_lem :
      (x : Node) (e : Edge) → driver_record nx lower g x e ≡ written x (data_of nx g e.src) e
  unfolding driver_record signal_unit_names
  driver_record_lem x e =
      ap (λ (u : Option Text). record (written x (data_of nx g e.src) e) { unit_name = u })
        (unit_name_lem (enclosing_unit nx g x.id))

module _ (nx : MultiDiGraph) (laws : Laws nx) (lower : Text → Text) (g : nx.Graph) where
  -- The record of an edge of the flow into a net.
  abbrev IsRecord : Text → Option Text → Bool → DriverRecord → Type 0
  IsRecord signal unit readers r =
      (x : Node) × (e : Edge) × (In x (nx.nodes g) × IsNet nx laws lower g signal unit x)
      × (In e (nx.edges g) × ((e.dst ≡ x.id) × IsFlow readers e.kind))
      × (r ≡ written nx lower g x (data_of nx g e.src) e)

  records_iff :
      (signal : Text) (unit : Option Text) (readers : Bool) (r : DriverRecord)
      → In r (signal_drivers nx lower g signal unit readers) ↔ IsRecord signal unit readers r
  unfolding signal_drivers records_of
  records_iff signal unit readers r =
      let kind = flow_kind nx lower g readers in
      let p = λ (e : Edge). e.kind == kind in
      let wanted = filter (is_wanted nx lower g signal unit) (nx.nodes g) in
      let all = flat_map (records_of nx lower g kind) wanted in
      (
        (λ i.
            let (x, j, k) =
              In-flat_map (records_of nx lower g kind) r wanted
                ((In-sort_by (driver_leb) r all).0 i) in
            let (e, l, q) =
              In-map (driver_record nx lower g x) r (filter p (nx.in_edges g x.id)) k in
            let (m, t) = (In-filter p e (nx.in_edges g x.id)).0 l in
            let (n, d) = (laws.in_edges_iff g x.id e).0 m in
            (
              x,
              e,
              (let (l, w) = (In-filter (is_wanted nx lower g signal unit) x (nx.nodes g)).0 j in
                  (l, (is_wanted_iff nx laws lower g signal unit x).0 w)),
              (n, (d, (flow_kind_iff nx lower g readers e.kind).0 ((==_iff e.kind kind).0 t))),
              q ∙ driver_record_lem nx lower g x e,
            )),
        (λ (x, e, j, (n, (d, t)), q).
            let l = (In-filter p e (nx.in_edges g x.id)).1 (
              (laws.in_edges_iff g x.id e).1 (n, d),
              (==_iff e.kind kind).1 ((flow_kind_iff nx lower g readers e.kind).1 t),
            ) in
            let k : In r (records_of nx lower g kind x) =
              subst (λ y. In y (records_of nx lower g kind x))
                (sym (q ∙ sym (driver_record_lem nx lower g x e)))
                (In-map_of (driver_record nx lower g x) e (filter p (nx.in_edges g x.id)) l) in
            (In-sort_by (driver_leb) r all).1 (
              In-flat_map_of (records_of nx lower g kind) x r wanted
                ((In-filter (is_wanted nx lower g signal unit) x (nx.nodes g)).1
                  (j.0, (is_wanted_iff nx laws lower g signal unit x).1 j.1))
                k)),
      )

  -- Both ends of every edge carry data.
  abbrev pub HasEnds : Type 0
  HasEnds =
      (e : Edge)
      → In e (nx.edges g)
      → (x : Node) × (nx.node g e.src ≡ some x) × (y : Node) × (nx.node g e.dst ≡ some y)

  data_of-node : (id : Text) (x : Node) → nx.node g id ≡ some x → data_of nx g id ≡ x
  unfolding data_of
  data_of-node id x q = rw (data_of, q) refl

  -- The record of an edge of the flow from its source, the site, into a net.
  abbrev pub IsDriver : Text → Option Text → Bool → DriverRecord → Type 0
  IsDriver signal unit readers r =
      (x : Node) × (e : Edge) × (In x (nx.nodes g) × IsNet nx laws lower g signal unit x)
      × (In e (nx.edges g) × ((e.dst ≡ x.id) × IsFlow readers e.kind))
      × ((site : Node) × (nx.node g e.src ≡ some site) × (r ≡ written nx lower g x site e))

  -- In a graph that meets the laws and in which both ends of every edge carry data, the records are
  -- exactly those of the DRIVES edges, or with `readers` of the READS edges, of the graph into the
  -- signals and ports of the name, with the fields of the edge and of its two ends. Where a unit is
  -- given, the net's enclosing unit goes by that name, or is an architecture of an entity that does.
  -- VHDL names are compared in lower case.
  pub signal_drivers_iff :
      HasEnds
      → (signal : Text) (unit : Option Text) (readers : Bool) (r : DriverRecord)
      → In r (signal_drivers nx lower g signal unit readers) ↔ IsDriver signal unit readers r
  signal_drivers_iff h signal unit readers r = (
    (λ i.
        let (x, e, n, f, q) = (records_iff signal unit readers r).0 i in
        let (site, s, _, _) = h e f.0 in
        (
          x,
          e,
          n,
          f,
          (site, s, q ∙ ap (λ y. written nx lower g x y e) (data_of-node e.src site s)),
        )),
    (λ (x, e, n, f, (site, s, q)).
        (records_iff signal unit readers r).1
          (x, e, n, f, q ∙ sym (ap (λ y. written nx lower g x y e) (data_of-node e.src site s)))),
  )
