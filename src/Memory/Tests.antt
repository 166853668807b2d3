-- ===== src/Memory/Tests.antt =====
-- The bounds at a small graph.
use molenkopf.Base.{String, ◌≡◌, refl, some, List, [], ◌∷◌}
use Prim.Native.Nat.{Ordering}
use Prim.Native.String
use molenkopf.Memory.{Concept, create_memory_graph, record_concepts, upsert, link}
use molenkopf.Memory.Laws.{IsBounded}
use molenkopf.Memory.Links.{record_concepts-IsBounded}

abbrev a_concept : String → Concept
a_concept id = record { id = id; label = id; kind = "file" }

abbrev two_concepts : List Concept
two_concepts = a_concept "file:b" ∷ a_concept "file:a" ∷ []

abbrev by_text : String → String → Ordering
by_text a b = String.compare a b

empty-IsBounded : IsBounded create_memory_graph
empty-IsBounded = record {
  few_nodes = refl;
  few_edges = refl;
  node_counts = refl;
  edge_counts = refl;
  ids_unique = tt;
  ends = refl;
}

record_concepts-IsBounded_example :
    IsBounded (record_concepts by_text create_memory_graph two_concepts (some "t1"))
record_concepts-IsBounded_example =
    record_concepts-IsBounded by_text create_memory_graph two_concepts (some "t1") empty-IsBounded

-- Two concepts of a request are linked, in the order of their ids.
linked :
    (record_concepts by_text create_memory_graph two_concepts (some "t1")).edges
    ≡ record { from = "file:a"; to = "file:b"; count = 1 } ∷ []
unfolding record_concepts upsert link
linked = refl
