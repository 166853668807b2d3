-- ===== src/Memory/Links.antt =====
-- The links of the memory graph keep its bounds.
use molenkopf.Base.{
  String, ◌≡◌, refl, sym, ◌∙◌, true, ◌&&◌, Option, List, [], ◌∷◌, arith, ◌==◌, ltb, length, filter,
  any, all, length-append, includes, all-filter_self,
}
use molenkopf.Base.{if-both, all-append}
use Prim.Native.Nat.{Ordering}
use Prim.Native.String
use molenkopf.Memory.{
  is_less, Concept, MemoryEdge, MemoryGraph, max_edges, has_node, upsert_all, count_edge,
  link_ordered, link, link_to_each, link_pairs, stamped, record_concepts,
}
use molenkopf.Memory.Laws.{
  node_ids, is_count, has_ends, IsBounded, has_node-includes, upsert_all-IsBounded,
}

module _ (lc : String → String → Ordering) where
  count_edge-length :
      (a b : String) (es : List MemoryEdge) → length (count_edge lc a b es) ≡ length es
  count_edge-length a b [] = refl
  count_edge-length a b (e ∷ es) = ground (arith, count_edge-length a b es)

  count_edge-counts :
      (a b : String) (es : List MemoryEdge)
      → all (λ e. is_count e.count) es ≡ true
      → all (λ e. is_count e.count) (count_edge lc a b es) ≡ true
  count_edge-counts a b [] h = refl
  count_edge-counts a b (e ∷ es) h = ground (arith, count_edge-counts a b es)

  count_edge-ends :
      (ids : List String) (a b : String) (es : List MemoryEdge)
      → all (has_ends ids) es ≡ true
      → all (has_ends ids) (count_edge lc a b es) ≡ true
  count_edge-ends ids a b [] h = refl
  count_edge-ends ids a b (e ∷ es) h = ground (arith, count_edge-ends ids a b es)

  link_ordered-IsBounded :
      (graph : MemoryGraph) (a b : String)
      → includes (node_ids graph.nodes) a ≡ true
      → includes (node_ids graph.nodes) b ≡ true
      → IsBounded graph
      → IsBounded (link_ordered lc graph a b)
  link_ordered-IsBounded graph a b l r h =
      let edge : MemoryEdge = record { from = a; to = b; count = 1 } in
      if-both IsBounded (any (λ e. e.from == a && e.to == b) graph.edges) _ _
        (λ _. record {
          few_nodes = h.few_nodes;
          few_edges = ground (arith, count_edge-length a b graph.edges, h.few_edges);
          node_counts = h.node_counts;
          edge_counts = count_edge-counts a b graph.edges h.edge_counts;
          ids_unique = h.ids_unique;
          ends = count_edge-ends (node_ids graph.nodes) a b graph.edges h.ends;
        })
        (λ _.
          if-both IsBounded (ltb (length graph.edges) max_edges) _ _
            (λ few. record {
              few_nodes = h.few_nodes;
              few_edges = ground (arith, length-append graph.edges (edge ∷ []));
              node_counts = h.node_counts;
              edge_counts = ground (
                arith,
                all-append (λ (e : MemoryEdge). is_count e.count) graph.edges (edge ∷ []),
                h.edge_counts,
              );
              ids_unique = h.ids_unique;
              ends = ground (
                arith,
                all-append (has_ends (node_ids graph.nodes)) graph.edges (edge ∷ []),
                h.ends,
              );
            })
            (λ _. h))

  link-IsBounded :
      (graph : MemoryGraph) (a b : String)
      → includes (node_ids graph.nodes) a ≡ true
      → includes (node_ids graph.nodes) b ≡ true
      → IsBounded graph
      → IsBounded (link lc graph a b)
  unfolding link
  link-IsBounded graph a b l r h =
      if-both IsBounded (is_less (String.compare a b)) _ _
        (λ _. link_ordered-IsBounded graph a b l r h) (λ _. link_ordered-IsBounded graph b a r l h)

  link-nodes : (graph : MemoryGraph) (a b : String) → (link lc graph a b).nodes ≡ graph.nodes
  unfolding link
  link-nodes graph a b =
      if-both (λ (g : MemoryGraph). g.nodes ≡ graph.nodes) (is_less (String.compare a b)) _ _
        (λ _. link_ordered-nodes a b) (λ _. link_ordered-nodes b a)
    where
      link_ordered-nodes : (a b : String) → (link_ordered lc graph a b).nodes ≡ graph.nodes
      link_ordered-nodes a b =
          if-both (λ (g : MemoryGraph). g.nodes ≡ graph.nodes)
            (any (λ e. e.from == a && e.to == b) graph.edges) _ _ (λ _. refl)
            (λ _.
              if-both (λ (g : MemoryGraph). g.nodes ≡ graph.nodes)
                (ltb (length graph.edges) max_edges) _ _ (λ _. refl) (λ _. refl))

  link_to_each-nodes :
      (graph : MemoryGraph) (id : String) (cs : List Concept)
      → (link_to_each lc graph id cs).nodes ≡ graph.nodes
  link_to_each-nodes graph id [] = refl
  link_to_each-nodes graph id (c ∷ cs) =
      link_to_each-nodes (link lc graph id c.id) id cs ∙ link-nodes graph id c.id

  link_to_each-IsBounded :
      (graph : MemoryGraph) (id : String) (cs : List Concept)
      → includes (node_ids graph.nodes) id ≡ true
      → all (λ (c : Concept). has_node c.id graph.nodes) cs ≡ true
      → IsBounded graph
      → IsBounded (link_to_each lc graph id cs)
  link_to_each-IsBounded graph id [] e p h = h
  link_to_each-IsBounded graph id (c ∷ cs) e p h =
      link_to_each-IsBounded (link lc graph id c.id) id cs (rw (link-nodes graph id c.id) e)
        (rw (link-nodes graph id c.id) (ground (arith)))
        (link-IsBounded graph id c.id e (sym (has_node-includes c.id graph.nodes) ∙ ground (arith))
          h)

  link_pairs-IsBounded :
      (graph : MemoryGraph) (cs : List Concept)
      → all (λ (c : Concept). has_node c.id graph.nodes) cs ≡ true
      → IsBounded graph
      → IsBounded (link_pairs lc graph cs)
  link_pairs-IsBounded graph [] p h = h
  link_pairs-IsBounded graph (c ∷ cs) p h =
      link_pairs-IsBounded (link_to_each lc graph c.id cs) cs
        (rw (link_to_each-nodes graph c.id cs) (ground (arith)))
        (link_to_each-IsBounded graph c.id cs
          (sym (has_node-includes c.id graph.nodes) ∙ ground (arith)) (ground (arith)) h)

  stamped-IsBounded :
      (cs : List Concept) (t : Option String) (graph : MemoryGraph)
      → IsBounded graph
      → IsBounded (stamped lc cs t graph)
  stamped-IsBounded [] t graph h = h
  stamped-IsBounded (c ∷ cs) t graph h = record {
    few_nodes = h.few_nodes;
    few_edges = h.few_edges;
    node_counts = h.node_counts;
    edge_counts = h.edge_counts;
    ids_unique = h.ids_unique;
    ends = h.ends;
  }

  -- The concepts of a request, however many, leave a graph that is within its bounds within them: at
  -- most 120 nodes and 240 edges, counts between 1 and 99999, no id twice, and no edge whose node has
  -- been evicted.
  pub record_concepts-IsBounded :
      (graph : MemoryGraph) (cs : List Concept) (t : Option String)
      → IsBounded graph
      → IsBounded (record_concepts lc graph cs t)
  unfolding record_concepts
  record_concepts-IsBounded graph cs t h =
      let (next, upserted) = upsert_all lc graph cs t in
      stamped-IsBounded cs t _ (
        link_pairs-IsBounded next (filter (λ (c : Concept). has_node c.id next.nodes) upserted)
          (all-filter_self (λ (c : Concept). has_node c.id next.nodes) upserted)
          (upsert_all-IsBounded lc graph cs t h))
