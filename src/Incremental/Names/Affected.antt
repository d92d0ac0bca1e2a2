-- ===== src/Incremental/Names/Affected.antt =====
-- What `changed_definition_names` and `affected_clean_refs` of src/hdl_kgraph/incremental.py list.
use hdl_kgraph.Base.{
  ◌≡◌, ◌≢◌, ◌↔◌, Bool, true, not, Option, none, some, List, ◌++◌, Text, keys, lookup, has_key_iff,
  lookup-eq-none, contains, contains_iff, any, filter_map, In, In-append, In-filter, In-filter_map,
  In-filter_map_of, nat_eq, list_eq, option_eq, pair_eq, ◌==◌, ==_iff, arith, if◌then◌else◌, subst,
  ==_refl, any→, →any, ◌∙◌, ap, sym,
}
use hdl_kgraph.Schema.{NodeKind, node_kind_eq, EdgeKind}
use hdl_kgraph.Linker.Kinds.{RefRecord, ref_target_kinds}
use hdl_kgraph.Incremental.Names.{
  DefKey, Profiles, changed_definition_names, kinds_named, affected_key, affected_clean_refs,
}

-- A name is listed as changed exactly when the two builds have different profiles for it.
pub changed_definition_names_iff :
    (prior new : Profiles) (key : DefKey)
    → In key (changed_definition_names prior new) ↔ (lookup prior key ≢ lookup new key)
unfolding changed_definition_names
changed_definition_names_iff prior new key = ground (
  arith,
  In-filter (λ k. not (lookup prior k == lookup new k)) key (keys prior ++ keys new),
  In-append key (keys prior) (keys new),
  has_key_iff prior key,
  has_key_iff new key,
  lookup-eq-none prior key,
  lookup-eq-none new key,
  ==_iff (lookup prior key) (lookup new key),
)

abbrev kind_if_named : Text → DefKey → Option NodeKind
kind_if_named name (kind, n) = if n == name then some kind else none

kind_if_named-eq-some :
    (name : Text) (key : DefKey) (kind : NodeKind)
    → kind_if_named name key ≡ some kind
    → key ≡ (kind, name)
kind_if_named-eq-some name (k, n) kind h = ground (arith, ==_iff n name)

-- The kinds that are recorded under a name.
named→ :
    (changed : List DefKey) (name : Text) (kind : NodeKind)
    → contains (kinds_named changed name) kind ≡ true
    → In (kind, name) changed
unfolding kinds_named
named→ changed name kind h =
    let m = (contains_iff (filter_map (kind_if_named name) changed) kind).0 h in
    let (key, i, e) = In-filter_map (kind_if_named name) kind changed m in
    subst (λ (k : DefKey). In k changed) (kind_if_named-eq-some name key kind e) i

→named :
    (changed : List DefKey) (name : Text) (kind : NodeKind)
    → In (kind, name) changed
    → contains (kinds_named changed name) kind ≡ true
unfolding kinds_named
→named changed name kind i =
    (contains_iff (filter_map (kind_if_named name) changed) kind).1
      (In-filter_map_of (kind_if_named name) (kind, name) kind changed i (rw (==_refl name)))

-- A name that the reference could resolve to is among the changed ones.
abbrev pub IsAffected : List DefKey → RefRecord → Type 0
IsAffected changed rec =
    (kind : NodeKind) × In kind (ref_target_kinds rec.edge_kind)
    × In (kind, rec.target_name) changed

abbrev pub key_of : RefRecord → Text × Text × EdgeKind
key_of rec = (rec.file, rec.src_id, rec.edge_kind)

may_move : List DefKey → RefRecord → Bool
may_move changed rec =
    any (λ k. contains (kinds_named changed rec.target_name) k) (ref_target_kinds rec.edge_kind)

may_move→ :
    (changed : List DefKey) (rec : RefRecord) → may_move changed rec ≡ true → IsAffected changed rec
unfolding may_move
may_move→ changed rec h =
    let (kind, i, c) =
      any→ (λ k. contains (kinds_named changed rec.target_name) k) (ref_target_kinds rec.edge_kind)
        h in
    (kind, i, named→ changed rec.target_name kind c)

→may_move :
    (changed : List DefKey) (rec : RefRecord) → IsAffected changed rec → may_move changed rec ≡ true
unfolding may_move
→may_move changed rec (kind, i, c) =
    →any (λ k. contains (kinds_named changed rec.target_name) k) (ref_target_kinds rec.edge_kind)
      kind i (→named changed rec.target_name kind c)

affected_key-eq-some :
    (changed : List DefKey) (rec : RefRecord) (x : Text × Text × EdgeKind)
    → affected_key changed rec ≡ some x
    → (may_move changed rec ≡ true) × (x ≡ key_of rec)
unfolding affected_key may_move
affected_key-eq-some changed rec x h = ground arith

affected_key_of :
    (changed : List DefKey) (rec : RefRecord)
    → may_move changed rec ≡ true
    → affected_key changed rec ≡ some (key_of rec)
unfolding affected_key may_move
affected_key_of changed rec h = ground arith

-- A key is listed exactly when it is that of a recorded reference with a changed name of a kind
-- that the reference could resolve to.
pub affected_clean_refs_iff :
    (records : List RefRecord) (changed : List DefKey) (x : Text × Text × EdgeKind)
    → In x (affected_clean_refs records changed)
      ↔ ((rec : RefRecord) × In rec records × (x ≡ key_of rec) × IsAffected changed rec)
unfolding affected_clean_refs
affected_clean_refs_iff records changed x = (sound, complete)
  where
    sound :
        In x (filter_map (affected_key changed) records)
        → (rec : RefRecord) × In rec records × (x ≡ key_of rec) × IsAffected changed rec
    sound m =
        let (rec, i, e) = In-filter_map (affected_key changed) x records m in
        let (moves, same) = affected_key-eq-some changed rec x e in
        (rec, i, same, may_move→ changed rec moves)

    complete :
        (rec : RefRecord) × In rec records × (x ≡ key_of rec) × IsAffected changed rec
        → In x (filter_map (affected_key changed) records)
    complete (rec, i, e, a) =
        In-filter_map_of (affected_key changed) rec x records i
          (affected_key_of changed rec (→may_move changed rec a) ∙ ap some (sym e))
