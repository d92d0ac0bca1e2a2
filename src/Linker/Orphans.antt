-- ===== src/Linker/Orphans.antt =====
-- `_gc_orphan_stubs` of src/hdl_kgraph/graph/builder.py: the stubs that it removes.
pub mod Exact
use hdl_kgraph.Base.{
  ℕ, zero, suc, ◌+◌, Bool, true, false, not, ◌&&◌, Option, none, some, List, [], ◌∷◌, ◌++◌, map,
  Text, codes, any, contains, filter, reverse, length, nat_eq, list_eq, ◌==◌, if◌then◌else◌,
}
use hdl_kgraph.Schema.{Node, Edge, EdgeKind, edge_kind_eq, get_attr, truthy}
use hdl_kgraph.Graph.{MultiDiGraph}

module _ (nx : MultiDiGraph) (g : nx.Graph) where
  pub stubs : List Text
  stubs =
      map (λ x. x.id) (filter (λ x. truthy (get_attr x.attrs (codes "unresolved"))) (nx.nodes g))

  incident : Text → List Edge
  incident id = nx.in_edges g id ++ nx.out_edges g id

  -- `_anchored`
  pub is_anchored : Text → Bool
  unfolding incident
  is_anchored id = any (λ e. not (e.kind == EdgeKind.declares)) (incident id)

  -- `u if v == node_id else v`
  other_end : Text → Edge → Text
  other_end id e = if e.dst == id then e.src else e.dst

  -- The ends that the edges of declarations lead to.
  pub hosts : Text → List Text
  unfolding incident other_end
  hosts id = map (other_end id) (filter (λ e. e.kind == EdgeKind.declares) (incident id))

  -- The loop over the edges: a stub that is not kept yet goes on the stack, its top being the head.
  pub push : List Text → List Text → List Text → List Text
  unfolding stubs contains
  push [] keep pending = pending
  push (n ∷ ns) keep pending =
      let skipped = push ns keep pending in
      let pushed = push ns keep (n ∷ pending) in
      if contains stubs n && not (contains keep n) then pushed else skipped

  -- `while pending` on fuel; `none` means that the fuel ran out.
  pub keep_hosted : ℕ → List Text → List Text → Option (List Text)
  unfolding push hosts contains
  keep_hosted fuel keep [] = some keep
  keep_hosted zero keep (n ∷ pending) = none
  keep_hosted (suc fuel) keep (n ∷ pending) =
      let skipped = keep_hosted fuel keep pending in
      let kept = keep_hosted fuel (n ∷ keep) (push (hosts n) (n ∷ keep) pending) in
      if contains keep n then skipped else kept

  -- What the stubs that are not kept can still push, each with itself.
  pub work : List Text → List Text → ℕ
  unfolding hosts contains
  work [] keep = 0
  work (n ∷ ns) keep =
      let rest = work ns keep in if contains keep n then rest else suc (length (hosts n)) + rest

  pub anchored_stubs : List Text
  unfolding stubs is_anchored
  anchored_stubs = filter is_anchored stubs

  without_kept : Option (List Text) → Option (List Text)
  unfolding stubs contains
  without_kept none = none
  without_kept (some keep) = some (filter (λ n. not (contains keep n)) stubs)

  -- The nodes that `_gc_orphan_stubs` removes: `stubs - keep`.
  pub orphan_stubs : Option (List Text)
  unfolding keep_hosted work anchored_stubs without_kept
  orphan_stubs =
      without_kept (keep_hosted (length anchored_stubs + work stubs []) [] (reverse anchored_stubs))
