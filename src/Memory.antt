-- ===== src/Memory.antt =====
-- The memory graph, packages/core/src/memory/memory-graph.ts. How texts are ordered by the locale is an
-- argument; `a < b` is the order of their characters.
pub mod Laws
pub mod Links
pub mod Tests
use molenkopf.Base.{
  ℕ, zero, suc, ◌+◌, ◌-◌, ◌*◌, ◌/◌, ◌≤◌, ◌<◌, String, ◌≡◌, refl, sym, ap, ◌∙◌, ◌≢◌, ◌↔◌, ◌⊎◌, inl,
  inr, Bool, true, false, ◌&&◌, ◌||◌, not, Option, none, some, List, [], ◌∷◌, ◌++◌, map, arith,
  ◌==◌, eq_iff, eq_refl, ltb, leb, nat_eq, if◌then◌else◌, Bool-cases, Option-cases, or_else,
  or_option, is_some, ◌>>=◌, Result, ok, fail, length, take, drop, filter, find, any, all, All,
  length-append, includes, includes-filter, includes-append, other_than, unique, includes-unique,
  IsUnique, filter-IsUnique, unique-IsUnique, all_mono, all-filter, all-of_includes,
  all-filter_self, all-const, filter-all, Dict, lookup, insert, erase, values, lookup-insert,
  lookup-erase, has, has-erase, all_rows, erase_all, map_values, is_empty, is_space, trim, size,
  every_char, is_digit, is_letter, is_id_char, is_slug,
}
use Prim.Native.Nat.{Ordering, compare}
use Prim.Native.String

pub record Concept : Type 0 where
  pub id : String
  pub label : String
  pub kind : String

pub record MemoryNode : Type 0 where
  pub id : String
  pub label : String
  pub kind : String
  pub count : ℕ
  pub last_seen : Option String

pub record MemoryEdge : Type 0 where
  pub from : String
  pub to : String
  pub count : ℕ

pub record MemoryGraph : Type 0 where
  pub nodes : List MemoryNode
  pub edges : List MemoryEdge
  pub updated_at : Option String

abbrev pub max_nodes : ℕ
max_nodes = 120

abbrev pub max_edges : ℕ
max_edges = 240

abbrev pub max_count : ℕ
max_count = 99999

abbrev pub create_memory_graph : MemoryGraph
create_memory_graph = record { nodes = []; edges = []; updated_at = none }

-- `Math.min(MAX_COUNT, count + 1)`
abbrev pub bumped : ℕ → ℕ
bumped count = if ltb count max_count then suc count else max_count

abbrev pub has_node : String → List MemoryNode → Bool
has_node id nodes = any (λ n. n.id == id) nodes

-- The node with the id is counted once more.
abbrev pub touch : String → Option String → List MemoryNode → List MemoryNode
touch id timestamp [] = []
touch id timestamp (n ∷ ns) =
    if n.id == id
    then record n { count = bumped n.count; last_seen = or_option timestamp n.last_seen } ∷ ns
    else n ∷ touch id timestamp ns

abbrev pub then_by : Ordering → Bool → Bool
then_by Ordering.lt later = true
then_by Ordering.eq later = later
then_by Ordering.gt later = false

abbrev pub is_less : Ordering → Bool
is_less o = then_by o false

module _ (locale_compare : String → String → Ordering) where
  abbrev pub before : MemoryNode → MemoryNode → Bool
  before a b = then_by (compare a.count b.count) (
      then_by (locale_compare (or_else a.last_seen "") (or_else b.last_seen ""))
        (is_less (locale_compare a.id b.id)))

  -- The first of the list sorted by count, then by when it was seen, then by id.
  abbrev pub least : MemoryNode → List MemoryNode → MemoryNode
  least best [] = best
  least best (n ∷ ns) = least (if before n best then n else best) ns

  abbrev pub without_node : String → MemoryGraph → MemoryGraph
  without_node id graph = record graph {
    nodes = filter (λ n. not (n.id == id)) graph.nodes;
    edges = filter (λ e. not (e.from == id) && not (e.to == id)) graph.edges;
  }

  abbrev pub evict_among : List MemoryNode → MemoryGraph → MemoryGraph
  evict_among [] graph = graph
  evict_among (n ∷ ns) graph = let candidate = least n ns in without_node candidate.id graph

  unfoldable pub evict_one : MemoryGraph → MemoryGraph
  evict_one graph = evict_among graph.nodes graph

  abbrev pub new_node : Concept → Option String → MemoryNode
  new_node concept timestamp = record {
    id = concept.id;
    label = concept.label;
    kind = concept.kind;
    count = 1;
    last_seen = timestamp;
  }

  abbrev pub pushed : Concept → Option String → MemoryGraph → MemoryGraph × Bool
  pushed concept timestamp graph =
      if leb max_nodes (length graph.nodes)
      then (graph, false)
      else (record graph { nodes = graph.nodes ++ (new_node concept timestamp ∷ []) }, true)

  -- The graph, and whether the concept has a node now.
  unfoldable pub upsert : MemoryGraph → Concept → Option String → MemoryGraph × Bool
  unfolding evict_one
  upsert graph concept given =
      let timestamp = or_option given graph.updated_at in
      if has_node concept.id graph.nodes
      then (record graph { nodes = touch concept.id timestamp graph.nodes }, true)
      else pushed concept timestamp
          (if leb max_nodes (length graph.nodes) then evict_one graph else graph)

  abbrev pub kept_if : Bool → Concept → List Concept → List Concept
  kept_if true concept cs = concept ∷ cs
  kept_if false concept cs = cs

  -- `concepts.filter((concept) => upsert(graph, concept, timestamp))`
  abbrev pub upsert_all : MemoryGraph → List Concept → Option String → MemoryGraph × List Concept
  upsert_all graph [] timestamp = (graph, [])
  upsert_all graph (c ∷ cs) timestamp =
      let (next, is_there) = upsert graph c timestamp in
      let (last, rest) = upsert_all next cs timestamp in (last, kept_if is_there c rest)

  abbrev pub count_edge : String → String → List MemoryEdge → List MemoryEdge
  count_edge from to [] = []
  count_edge from to (e ∷ es) =
      if e.from == from && e.to == to
      then record e { count = bumped e.count } ∷ es
      else e ∷ count_edge from to es

  abbrev pub link_ordered : MemoryGraph → String → String → MemoryGraph
  link_ordered graph from to =
      if any (λ e. e.from == from && e.to == to) graph.edges
      then record graph { edges = count_edge from to graph.edges }
      else if ltb (length graph.edges) max_edges
      then record graph { edges = graph.edges ++ (record { from = from; to = to; count = 1 } ∷ []) }
      else graph

  unfoldable pub link : MemoryGraph → String → String → MemoryGraph
  link graph a b =
      if is_less (String.compare a b) then link_ordered graph a b else link_ordered graph b a

  abbrev pub link_to_each : MemoryGraph → String → List Concept → MemoryGraph
  link_to_each graph id [] = graph
  link_to_each graph id (c ∷ cs) = link_to_each (link graph id c.id) id cs

  -- Each pair once.
  abbrev pub link_pairs : MemoryGraph → List Concept → MemoryGraph
  link_pairs graph [] = graph
  link_pairs graph (c ∷ cs) = link_pairs (link_to_each graph c.id cs) cs

  abbrev pub stamped : List Concept → Option String → MemoryGraph → MemoryGraph
  stamped [] timestamp graph = graph
  stamped (c ∷ cs) timestamp graph = record graph {
    updated_at = or_option timestamp graph.updated_at;
  }

  unfoldable pub record_concepts : MemoryGraph → List Concept → Option String → MemoryGraph
  unfolding upsert link
  record_concepts graph concepts timestamp =
      let (next, upserted) = upsert_all graph concepts timestamp in
      let present = filter (λ (c : Concept). has_node c.id next.nodes) upserted in
      stamped concepts timestamp (link_pairs next present)
