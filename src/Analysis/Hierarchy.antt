-- ===== src/Analysis/Hierarchy.antt =====
-- The design hierarchy: `_instance_holders`, `hierarchy_tree` and `subtree_node_ids` of
-- src/hdl_kgraph/graph/analysis.py. What is left of `max_depth` is the number that the recursion runs
-- on.
pub mod Bounded
use hdl_kgraph.Base.{
  ℕ, zero, suc, Bool, true, false, not, ◌||◌, ◌&&◌, Option, none, some, List, [], ◌∷◌, ◌++◌, map,
  Text, codes, any, contains, filter, flat_map, nat_eq, list_eq, ◌==◌, if◌then◌else◌, sort_by,
  text_leb,
}
use hdl_kgraph.Schema.{
  Node, Edge, NodeKind, node_kind_eq, EdgeKind, edge_kind_eq, AttrValue, get_attr, truthy,
  confidence_resolved,
}
use hdl_kgraph.Graph.{MultiDiGraph, data_of}
use hdl_kgraph.Analysis.Units.{is_stub, out_of_kind, by_qualified_name}

-- The fields of `HierarchyNode` but `children`.
pub record Level : Type 0 where
  pub module_id : Text
  pub module_name : Text
  pub instance_name : Option Text
  pub confidence : ℕ
  pub unresolved : Bool
  pub architecture : Option Text
  pub truncated : Bool

mutual
  pub data HierarchyNode : Type 0 where
    level : Level → Children → HierarchyNode

  pub data Children : Type 0 where
    leaf : Children
    child : HierarchyNode → Children → Children

-- An instantiation below a unit, or the root.
pub record Site : Type 0 where
  pub unit_id : Text
  pub instance_name : Option Text
  pub confidence : ℕ
  pub via_arch : AttrValue

level_of : HierarchyNode → Level
level_of (HierarchyNode.level l kids) = l

name_or_empty : Option Text → Text
name_or_empty none = []
name_or_empty (some t) = t

-- By the name of the instance, then by that of the module.
child_leb : HierarchyNode → HierarchyNode → Bool
unfolding level_of name_or_empty
child_leb a b =
    let x = name_or_empty (level_of a).instance_name in
    let y = name_or_empty (level_of b).instance_name in
    if x == y then text_leb (level_of a).module_name (level_of b).module_name else text_leb x y

insert_child : HierarchyNode → Children → Children
unfolding child_leb
insert_child a Children.leaf = Children.child a Children.leaf
insert_child a (Children.child b cs) =
    let rest = insert_child a cs in
    if child_leb a b then Children.child a (Children.child b cs) else Children.child b rest

-- `node.children.sort(…)`
sort_children : Children → Children
unfolding insert_child
sort_children Children.leaf = Children.leaf
sort_children (Children.child a cs) = insert_child a (sort_children cs)

grow : (Site → HierarchyNode) → List Site → Children
grow expand [] = Children.leaf
grow expand (s ∷ ss) = Children.child (expand s) (grow expand ss)

is_name : AttrValue → Text → Bool
is_name (AttrValue.str t) u = t == u
is_name v u = false

archs_or : List Text → List Text → List Text
archs_or [] ys = ys
archs_or (x ∷ xs) ys = x ∷ xs

-- One architecture is named, none or several are not.
only : List Text → Option Text
only (a ∷ []) = some a
only archs = none

-- What `subtree_node_ids` does with an id: keep it, or visit it.
pub data Action : Type 0 where
  keep : Text → Action
  visit_unit : Text → Action

-- `keep` and `visited`
pub record Subtree : Type 0 where
  pub kept : List Text
  pub visited : List Text

keep_id : Text → Subtree → Subtree
unfolding contains
keep_id id s = if contains s.kept id then s else record s { kept = id ∷ s.kept }

act_all : (Text → Subtree → Subtree) → List Action → Subtree → Subtree
unfolding keep_id
act_all visit [] s = s
act_all visit (Action.keep id ∷ rest) s = act_all visit rest (keep_id id s)
act_all visit (Action.visit_unit id ∷ rest) s = act_all visit rest (visit id s)

module _ (nx : MultiDiGraph) (lower : Text → Text) (g : nx.Graph) where
  -- `_instance_holders`
  pub instance_holders : Text → AttrValue → List Text
  unfolding is_name archs_or sort_by
  instance_holders unit_id via_arch =
      let archs =
        map (λ e. e.src) (filter (λ e. e.kind == EdgeKind.implements) (nx.in_edges g unit_id)) in
      let named = archs_or (filter (λ a. is_name via_arch (data_of nx g a).name) archs) archs in
      unit_id ∷ sort_by (by_qualified_name nx lower g) (if truthy via_arch then named else archs)

  instances_in : Text → List Text
  instances_in holder =
      filter (λ id. (data_of nx g id).kind == NodeKind.instance_kind)
        (map (λ e. e.dst) (out_of_kind nx lower g holder EdgeKind.declares))

  has_instances : Text → AttrValue → Bool
  unfolding instances_in instance_holders
  has_instances unit_id via_arch =
      any (λ holder. any (λ id. true) (instances_in holder)) (instance_holders unit_id via_arch)

  site_at : Text → Edge → Site
  site_at inst_id e = record {
    unit_id = e.dst;
    instance_name = some (data_of nx g inst_id).name;
    confidence = e.confidence;
    via_arch = get_attr e.attrs (codes "architecture");
  }

  -- The instantiations below a unit, in the order of the loops.
  pub sites : Site → List Site
  unfolding site_at instances_in instance_holders
  sites s =
      flat_map
        (λ holder.
          flat_map
            (λ inst_id.
              map (site_at inst_id) (out_of_kind nx lower g inst_id EdgeKind.instantiates))
            (instances_in holder))
        (instance_holders s.unit_id s.via_arch)

  drop_first : List Text → List Text
  drop_first [] = []
  drop_first (x ∷ xs) = xs

  architecture_of : Option Text → Option Text
  architecture_of none = none
  architecture_of (some a) = some (data_of nx g a).name

  level_at : Site → Bool → Level
  unfolding only drop_first architecture_of instance_holders
  level_at s truncated = record {
    module_id = s.unit_id;
    module_name = (data_of nx g s.unit_id).name;
    instance_name = s.instance_name;
    confidence = s.confidence;
    unresolved = is_stub nx lower g s.unit_id;
    architecture = architecture_of (only (drop_first (instance_holders s.unit_id s.via_arch)));
    truncated = truncated;
  }

  -- `expand`, with the depth that is left.
  pub expand_site : ℕ → List Text → Site → HierarchyNode
  unfolding level_at grow sort_children sites has_instances contains
  expand_site zero seen s =
      HierarchyNode.level
        (level_at s (contains seen s.unit_id || has_instances s.unit_id s.via_arch)) Children.leaf
  expand_site (suc left) seen s =
      let kids = sort_children (grow (expand_site left (s.unit_id ∷ seen)) (sites s)) in
      if contains seen s.unit_id
      then HierarchyNode.level (level_at s true) Children.leaf
      else HierarchyNode.level (level_at s false) kids

  -- `hierarchy_tree`
  pub hierarchy_tree : Text → ℕ → HierarchyNode
  unfolding expand_site
  hierarchy_tree top_id max_depth = expand_site max_depth [] (record {
    unit_id = top_id;
    instance_name = none;
    confidence = confidence_resolved;
    via_arch = AttrValue.null;
  })

  child_actions : Text → List Action
  child_actions child_id =
      Action.keep child_id
      ∷ (if (data_of nx g child_id).kind == NodeKind.instance_kind
          then map (λ e. Action.visit_unit e.dst)
              (out_of_kind nx lower g child_id EdgeKind.instantiates)
          else [])

  -- What a visit does below the unit, in the order of the loops.
  actions : Text → List Action
  unfolding child_actions instance_holders
  actions unit_id =
      flat_map
        (λ holder.
          Action.keep holder
          ∷ flat_map child_actions
              (map (λ e. e.dst) (out_of_kind nx lower g holder EdgeKind.declares)))
        (instance_holders unit_id AttrValue.null)

  -- `visit`, with the depth that is left.
  pub visit : ℕ → Text → Subtree → Subtree
  unfolding actions act_all keep_id contains
  visit zero unit_id s = keep_id unit_id s
  visit (suc left) unit_id s =
      let noted = keep_id unit_id s in
      let below =
        act_all (visit left) (actions unit_id)
          (record noted { visited = unit_id ∷ noted.visited }) in
      if contains s.visited unit_id then noted else below

  -- `subtree_node_ids`
  pub subtree_node_ids : Text → ℕ → List Text
  unfolding visit
  subtree_node_ids top_id max_depth =
      (visit max_depth top_id (record { kept = []; visited = [] })).kept
