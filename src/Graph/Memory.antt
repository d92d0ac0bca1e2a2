-- ===== src/Graph/Memory.antt =====
-- A small multigraph that meets the laws of `Graph`: the data of the nodes by id, and the edges in
-- the order in which they came.
use hdl_kgraph.Base.{
  ◌≡◌, ◌≢◌, ◌↔◌, ◌⊎◌, refl, Bool, true, false, ◌||◌, Option, none, some, List, [], ◌∷◌, ◌++◌, Text,
  In, nat_eq, list_eq, ◌==◌, if◌then◌else◌, filter, In-filter, In-append, ==_iff, arith, In-append,
  list_beq,
}
use hdl_kgraph.Schema.{Node, Edge}
use hdl_kgraph.Graph.{MultiDiGraph, Laws}

pub record Memory : Type 0 where
  pub stored : List Node
  pub links : List Edge

find_node : List Node → Text → Option Node
find_node [] n = none
find_node (x ∷ xs) n = if x.id == n then some x else find_node xs n

without : Text → List Node → List Node
without n [] = []
without n (x ∷ xs) = let rest = without n xs in if x.id == n then rest else x ∷ rest

-- The newest data set of each id.
current : List Node → List Node
unfolding without
current [] = []
current (x ∷ xs) = x ∷ without x.id (current xs)

touches : List Edge → Text → Bool
touches [] n = false
touches (e ∷ es) n = e.src == n || (e.dst == n || touches es n)

has_data : List Node → Text → Bool
has_data [] n = false
has_data (x ∷ xs) n = x.id == n || has_data xs n

In-without : (n : Text) (x : Node) (xs : List Node) → In x (without n xs) ↔ (In x xs × (x.id ≢ n))
unfolding without
In-without n x [] = ground arith
In-without n x (y ∷ ys) = ground (arith, ==_iff y.id n, In-without n x ys)

In-current : (x : Node) (xs : List Node) → In x (current xs) ↔ (find_node xs x.id ≡ some x)
unfolding current find_node
In-current x [] = ground arith
In-current x (y ∷ ys) =
    ground (arith, ==_iff y.id x.id, In-current x ys, In-without y.id x (current ys))

id-find_node : (xs : List Node) (n : Text) (x : Node) → find_node xs n ≡ some x → x.id ≡ n
unfolding find_node
id-find_node [] n x h = cc
id-find_node (y ∷ ys) n x h = ground (arith, ==_iff y.id n, id-find_node ys n x)

touches_ends :
    (es : List Edge) (e : Edge) → In e es → (touches es e.src ≡ true) × (touches es e.dst ≡ true)
unfolding touches
touches_ends [] e h = absurd h
touches_ends (d ∷ es) e h =
    ground (arith, touches_ends es e, ==_iff d.src e.src, ==_iff d.dst e.dst)

touches-append :
    (es : List Edge) (e : Edge) (n : Text)
    → touches (es ++ e ∷ []) n ≡ (e.src == n || (e.dst == n || touches es n))
unfolding touches
touches-append [] e n = refl
touches-append (d ∷ es) e n = ground (arith, touches-append es e n)

orb_left : (a b : Bool) → a ≡ true → (a || b) ≡ true
orb_left a b h = ground arith

unfoldable pub memory : MultiDiGraph
unfolding find_node current touches has_data list_beq
memory = record {
  Graph = Memory;
  empty = record { stored = []; links = [] };
  has_node = λ g n. has_data g.stored n || touches g.links n;
  node = λ g n. find_node g.stored n;
  nodes = λ g. current g.stored;
  edges = λ g. g.links;
  in_edges = λ g n. filter (λ e. e.dst == n) g.links;
  out_edges = λ g n. filter (λ e. e.src == n) g.links;
  add_node = λ g x. record { stored = x ∷ g.stored; links = g.links };
  add_edge = λ g e. record { stored = g.stored; links = g.links ++ e ∷ [] };
}

module _ (g : Memory) where
  incoming_law :
      (n : Text) (e : Edge) → In e (filter (λ d. d.dst == n) g.links) ↔ (In e g.links × (e.dst ≡ n))
  incoming_law n e = ground (arith, In-filter (λ d. d.dst == n) e g.links, ==_iff e.dst n)

  outgoing_law :
      (n : Text) (e : Edge) → In e (filter (λ d. d.src == n) g.links) ↔ (In e g.links × (e.src ≡ n))
  outgoing_law n e = ground (arith, In-filter (λ d. d.src == n) e g.links, ==_iff e.src n)

  edge_ends_law :
      (e : Edge)
      → In e g.links
      → ((has_data g.stored e.src || touches g.links e.src) ≡ true)
        × ((has_data g.stored e.dst || touches g.links e.dst) ≡ true)
  edge_ends_law e h = ground (arith, touches_ends g.links e)

  has_node_law :
      (e : Edge) (n : Text)
      → (has_data g.stored n || touches (g.links ++ e ∷ []) n)
        ≡ (e.src == n || (e.dst == n || (has_data g.stored n || touches g.links n)))
  has_node_law e n = ground (arith, touches-append g.links e n)

  edges_law : (e d : Edge) → In d (g.links ++ e ∷ []) ↔ (In d g.links ⊎ (d ≡ e))
  edges_law e d = ground (arith, In-append d g.links (e ∷ []))

  has_node_add_law :
      (x : Node) (n : Text)
      → (has_data (x ∷ g.stored) n || touches g.links n)
        ≡ (x.id == n || (has_data g.stored n || touches g.links n))
  unfolding has_data
  has_node_add_law x n = ground arith

pub memory-Laws : Laws memory
unfolding memory
memory-Laws = record {
  in_edges_iff = λ g n e. incoming_law g n e;
  out_edges_iff = λ g n e. outgoing_law g n e;
  edge_ends = λ g e h. edge_ends_law g e h;
  nodes_iff = λ g x. In-current x g.stored;
  node_id = λ g n x h. id-find_node g.stored n x h;
  has_node-empty = λ n. refl;
  node-empty = λ n. refl;
  edges-empty = refl;
  has_node-add_node = λ g x n. has_node_add_law g x n;
  node-add_node = λ g x n. refl;
  edges-add_node = λ g x. refl;
  has_node-add_edge = λ g e n. has_node_law g e n;
  node-add_edge = λ g e n. refl;
  edges-add_edge = λ g e d. edges_law g e d;
}
