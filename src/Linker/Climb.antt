-- ===== src/Linker/Climb.antt =====
-- The design unit that scopes a node: `_enclosing_unit_id` of src/hdl_kgraph/graph/builder.py.
use hdl_kgraph.Base.{
  ℕ, suc, Bool, true, false, ◌≡◌, ◌↔◌, inl, inr, Option, none, some, [], Text, Dict, In, lookup,
  has_key, has_key_iff, has_key-eq-lookup, keys, nat_eq, list_eq, length, arith, Option-cases,
}
use hdl_kgraph.Schema.{Node}
use hdl_kgraph.Graph.{MultiDiGraph}
use hdl_kgraph.Climb.{climb, nearest, Climbs}
use hdl_kgraph.Climb.Ends.{climb-ends, nearest_lem, nearest_unit}
use hdl_kgraph.Linker.Kinds.{is_scoped_unit}
use hdl_kgraph.Linker.Store.{LinkState}

unit_node : Option Node → Bool
unfolding is_scoped_unit
unit_node none = false
unit_node (some x) = is_scoped_unit x.kind

In-keys : (d : Dict Text Text) (k v : Text) → lookup d k ≡ some v → In k (keys d)
In-keys d k v h = ground (arith, has_key_iff d k, has_key-eq-lookup d k)

module _ (nx : MultiDiGraph) (s : LinkState nx) where
  -- `node is not None and node.kind in _SCOPED_UNIT_KINDS`
  pub is_unit : Text → Bool
  unfolding unit_node
  is_unit id = unit_node (lookup s.node_obj id)

  -- `self.parent.get(id)`
  pub parent_of : Text → Option Text
  parent_of id = lookup s.parent id

  -- `_enclosing_unit_id`, with a step for each entry of `parent` and two more.
  pub enclosing_unit_id : Text → Option Text
  unfolding is_unit parent_of
  enclosing_unit_id node_id = nearest is_unit parent_of (length (keys s.parent)) node_id

  has_parent : (c p : Text) → parent_of c ≡ some p → In c (keys s.parent)
  unfolding parent_of
  has_parent c p h = In-keys s.parent c p h

  -- The fuel of the climb is enough: whatever the entries of `parent`, also where they form a cycle,
  -- the loop is done before the fuel runs out.
  pub climb_ends :
      (node_id : Text)
      → (r : Option Text) × (climb is_unit parent_of
            (suc (suc (length (keys s.parent))))
            []
            (some node_id)
          ≡ some r)
  climb_ends node_id = climb-ends is_unit parent_of (keys s.parent) has_parent node_id

  -- The climb finds a unit exactly where the chain of parents has one, and it is then the nearest: no
  -- node below it on the chain is a unit. A chain that ends, or runs in a cycle, without a unit gives
  -- `None`.
  pub enclosing_unit_id_lem :
      (node_id unit : Text)
      → (enclosing_unit_id node_id ≡ some unit)
        ↔ ((n : ℕ) × Climbs is_unit parent_of unit n node_id)
  unfolding enclosing_unit_id
  enclosing_unit_id_lem node_id unit =
      nearest_lem is_unit parent_of (keys s.parent) has_parent node_id unit

  is_unit-known : (id : Text) → is_unit id ≡ true → has_key s.node_obj id ≡ true
  unfolding is_unit unit_node
  is_unit-known id h = elim (Option-cases (lookup s.node_obj id)) [
    | inl e ↦ absurd (ground arith)
    | inr (x, e) ↦ ground (arith, has_key-eq-lookup s.node_obj id)
  ]

  -- A unit that is found is a node.
  pub enclosing_unit_id-known :
      (node_id unit : Text) → enclosing_unit_id node_id ≡ some unit → has_key s.node_obj unit ≡ true
  unfolding enclosing_unit_id
  enclosing_unit_id-known node_id unit h =
      is_unit-known unit (nearest_unit is_unit parent_of (keys s.parent) has_parent node_id unit h)
