-- ===== src/Analysis/Hierarchy/Bounded.antt =====
-- The tree of `hierarchy_tree` in src/hdl_kgraph/graph/analysis.py is bounded and never expands a unit
-- below itself.
use hdl_kgraph.Base.{
  ℕ, zero, suc, ◌≡◌, false, List, [], ◌∷◌, Text, contains, nat_eq, list_eq, if_intro, if_cases,
}
use hdl_kgraph.Graph.{MultiDiGraph}
use hdl_kgraph.Analysis.Hierarchy.{
  Level, HierarchyNode, Children, Site, child_leb, insert_child, sort_children, grow, level_at,
  expand_site, sites, hierarchy_tree, expand_site,
}

abbrev mutual
  -- No more than so many levels stand below the node, and a node with children is in none of the units
  -- above it.
  pub IsBounded : ℕ → List Text → HierarchyNode → Type 0
  IsBounded left seen (HierarchyNode.level l Children.leaf) = Unit
  IsBounded zero seen (HierarchyNode.level l (Children.child c cs)) = ⊥
  IsBounded (suc left) seen (HierarchyNode.level l (Children.child c cs)) =
      (contains seen l.module_id ≡ false)
      × AllBounded left (l.module_id ∷ seen) (Children.child c cs)

  pub AllBounded : ℕ → List Text → Children → Type 0
  AllBounded left seen Children.leaf = Unit
  AllBounded left seen (Children.child c cs) = IsBounded left seen c × AllBounded left seen cs

insert_child-AllBounded :
    (left : ℕ) (seen : List Text) (a : HierarchyNode) (cs : Children)
    → IsBounded left seen a
    → AllBounded left seen cs
    → AllBounded left seen (insert_child a cs)
unfolding insert_child
insert_child-AllBounded left seen a Children.leaf h k = (h, tt)
insert_child-AllBounded left seen a (Children.child b cs) h (k, ks) =
    if_intro (AllBounded left seen) (child_leb a b) _ _ (h, (k, ks))
      (k, insert_child-AllBounded left seen a cs h ks)

sort_children-AllBounded :
    (left : ℕ) (seen : List Text) (cs : Children)
    → AllBounded left seen cs
    → AllBounded left seen (sort_children cs)
unfolding sort_children
sort_children-AllBounded left seen Children.leaf h = tt
sort_children-AllBounded left seen (Children.child a cs) (h, hs) =
    insert_child-AllBounded left seen a (sort_children cs) h
      (sort_children-AllBounded left seen cs hs)

grow-AllBounded :
    (left : ℕ) (seen : List Text) (f : Site → HierarchyNode) (ss : List Site)
    → ((s : Site) → IsBounded left seen (f s))
    → AllBounded left seen (grow f ss)
unfolding grow
grow-AllBounded left seen f [] h = tt
grow-AllBounded left seen f (s ∷ ss) h = (h s, grow-AllBounded left seen f ss h)

level-IsBounded :
    (left : ℕ) (seen : List Text) (l : Level) (kids : Children)
    → contains seen l.module_id ≡ false
    → AllBounded left (l.module_id ∷ seen) kids
    → IsBounded (suc left) seen (HierarchyNode.level l kids)
level-IsBounded left seen l Children.leaf new h = tt
level-IsBounded left seen l (Children.child c cs) new h = (new, h)

module _ (nx : MultiDiGraph) (lower : Text → Text) (g : nx.Graph) where
  expand_site-IsBounded :
      (left : ℕ) (seen : List Text) (s : Site)
      → IsBounded left seen (expand_site nx lower g left seen s)
  unfolding expand_site level_at
  expand_site-IsBounded zero seen s = tt
  expand_site-IsBounded (suc left) seen s =
      if_cases (IsBounded (suc left) seen) (contains seen s.unit_id) _ _ (λ old. tt)
        (λ new.
          let next = s.unit_id ∷ seen in
          level-IsBounded left seen (level_at nx lower g s false) _ new (
            sort_children-AllBounded left next _ (
              grow-AllBounded left next (expand_site nx lower g left next) (sites nx lower g s)
                (λ t. expand_site-IsBounded left next t))))

  -- Whatever the graph, cycles of instantiations included, no path of the tree has more levels below
  -- the root than the limit, and no unit that is expanded stands below itself.
  pub hierarchy_tree-IsBounded :
      (top_id : Text) (max_depth : ℕ)
      → IsBounded max_depth [] (hierarchy_tree nx lower g top_id max_depth)
  unfolding hierarchy_tree
  hierarchy_tree-IsBounded top_id max_depth = expand_site-IsBounded max_depth [] _
