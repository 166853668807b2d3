-- ===== src/Memory/Laws.antt =====
-- The bounds of the memory graph.
use molenkopf.Base.{
  ℕ, String, ◌≡◌, refl, sym, ap, ◌∙◌, Bool, true, false, ◌&&◌, ◌||◌, not, Option, List, [], ◌∷◌,
  ◌++◌, arith, ◌==◌, eq_iff, eq_refl, ltb, leb, if◌then◌else◌, or_option, length, filter, any, all,
  length-append, includes, includes-filter, includes-append, IsUnique, filter-IsUnique,
}
use molenkopf.Base.{if-both, all-append, length-filter}
use Prim.Native.Nat.{Ordering}
use molenkopf.Memory.{
  Concept, MemoryNode, MemoryEdge, MemoryGraph, max_nodes, max_edges, max_count, has_node, touch,
  least, before, without_node, evict_among, evict_one, new_node, pushed, upsert, upsert_all,
}

abbrev pub node_ids : List MemoryNode → List String
node_ids [] = []
node_ids (n ∷ ns) = n.id ∷ node_ids ns

abbrev pub is_count : ℕ → Bool
is_count count = leb 1 count && leb count max_count

abbrev pub has_ends : List String → MemoryEdge → Bool
has_ends ids e = includes ids e.from && includes ids e.to

-- At most 120 nodes and 240 edges, whose counts are between 1 and 99999; no two nodes have an id in
-- common, and each edge is between two nodes of the graph.
pub record IsBounded (graph : MemoryGraph) : Type 0 where
  pub few_nodes : leb (length graph.nodes) max_nodes ≡ true
  pub few_edges : leb (length graph.edges) max_edges ≡ true
  pub node_counts : all (λ n. is_count n.count) graph.nodes ≡ true
  pub edge_counts : all (λ e. is_count e.count) graph.edges ≡ true
  pub ids_unique : IsUnique (node_ids graph.nodes)
  pub ends : all (has_ends (node_ids graph.nodes)) graph.edges ≡ true

pub has_node-includes :
    (id : String) (ns : List MemoryNode) → has_node id ns ≡ includes (node_ids ns) id
has_node-includes id [] = refl
has_node-includes id (n ∷ ns) = ap (λ b. n.id == id || b) (has_node-includes id ns)

touch-ids :
    (id : String) (t : Option String) (ns : List MemoryNode)
    → node_ids (touch id t ns) ≡ node_ids ns
touch-ids id t [] = refl
touch-ids id t (n ∷ ns) = ground (arith, touch-ids id t ns)

touch-length :
    (id : String) (t : Option String) (ns : List MemoryNode) → length (touch id t ns) ≡ length ns
touch-length id t [] = refl
touch-length id t (n ∷ ns) = ground (arith, touch-length id t ns)

touch-counts :
    (id : String) (t : Option String) (ns : List MemoryNode)
    → all (λ n. is_count n.count) ns ≡ true
    → all (λ n. is_count n.count) (touch id t ns) ≡ true
touch-counts id t [] h = refl
touch-counts id t (n ∷ ns) h = ground (arith, touch-counts id t ns)

node_ids-filter :
    (id : String) (ns : List MemoryNode)
    → node_ids (filter (λ n. not (n.id == id)) ns) ≡ filter (λ i. not (i == id)) (node_ids ns)
node_ids-filter id [] = refl
node_ids-filter id (n ∷ ns) = ground (arith, node_ids-filter id ns)

chosen-listed :
    (b : Bool) (m n : MemoryNode) (id : String) (ms : List MemoryNode)
    → has_node id ((if b then m else n) ∷ ms) ≡ true
    → has_node id (n ∷ m ∷ ms) ≡ true
chosen-listed true m n id ms h = ground (arith)
chosen-listed false m n id ms h = ground (arith)

least-listed :
    (locale_compare : String → String → Ordering) (n : MemoryNode) (ns : List MemoryNode)
    → has_node (least locale_compare n ns).id (n ∷ ns) ≡ true
least-listed lc n [] = ground (arith, eq_refl n.id)
least-listed lc n (m ∷ ms) =
    chosen-listed (before lc m n) m n (least lc (if before lc m n then m else n) ms).id ms
      (least-listed lc (if before lc m n then m else n) ms)

filter-shorter :
    (id : String) (ns : List MemoryNode)
    → has_node id ns ≡ true
    → ltb (length (filter (λ n. not (n.id == id)) ns)) (length ns) ≡ true
filter-shorter id [] h = absurd (ground (arith))
filter-shorter id (n ∷ ns) h =
    ground (arith, filter-shorter id ns, length-filter (λ (n : MemoryNode). not (n.id == id)) ns)

all_filtered {ℓ} :
    {A : Type ℓ} (p q : A → Bool) (xs : List A) → all q xs ≡ true → all q (filter p xs) ≡ true
all_filtered p q [] h = refl
all_filtered p q (x ∷ xs) h = ground (arith, all_filtered p q xs)

any_filtered {ℓ} :
    {A : Type ℓ} (p q : A → Bool) (xs : List A) → any p xs ≡ false → any p (filter q xs) ≡ false
any_filtered p q [] h = refl
any_filtered p q (x ∷ xs) h = ground (arith, any_filtered p q xs)

without_node-ends :
    (id : String) (ids : List String) (es : List MemoryEdge)
    → all (has_ends ids) es ≡ true
    → all
        (has_ends (filter (λ i. not (i == id)) ids))
        (filter (λ e. not (e.from == id) && not (e.to == id)) es)
      ≡ true
without_node-ends id ids [] h = refl
without_node-ends id ids (e ∷ es) h = ground (
  arith,
  without_node-ends id ids es,
  includes-filter (λ i. not (i == id)) ids e.from,
  includes-filter (λ i. not (i == id)) ids e.to,
)

module _ (lc : String → String → Ordering) where
  without_node-IsBounded :
      (id : String) (graph : MemoryGraph) → IsBounded graph → IsBounded (without_node lc id graph)
  without_node-IsBounded id graph h = record {
    few_nodes =
        ground
          (arith, length-filter (λ (n : MemoryNode). not (n.id == id)) graph.nodes, h.few_nodes);
    few_edges = ground (
      arith,
      length-filter (λ (e : MemoryEdge). not (e.from == id) && not (e.to == id)) graph.edges,
      h.few_edges,
    );
    node_counts =
        all_filtered (λ n. not (n.id == id)) (λ n. is_count n.count) graph.nodes h.node_counts;
    edge_counts =
        all_filtered (λ e. not (e.from == id) && not (e.to == id)) (λ e. is_count e.count)
          graph.edges h.edge_counts;
    ids_unique =
        rw (node_ids-filter id graph.nodes)
          (filter-IsUnique (λ i. not (i == id)) (node_ids graph.nodes) h.ids_unique);
    ends =
        rw (node_ids-filter id graph.nodes)
          (without_node-ends id (node_ids graph.nodes) graph.edges h.ends);
  }

  evict_among-IsBounded :
      (ns : List MemoryNode) (graph : MemoryGraph)
      → IsBounded graph
      → IsBounded (evict_among lc ns graph)
  evict_among-IsBounded [] graph h = h
  evict_among-IsBounded (n ∷ ns) graph h = without_node-IsBounded (least lc n ns).id graph h

  evict_among-shorter :
      (ns : List MemoryNode) (graph : MemoryGraph)
      → graph.nodes ≡ ns
      → leb max_nodes (length ns) ≡ true
      → ltb (length (evict_among lc ns graph).nodes) (length ns) ≡ true
  evict_among-shorter [] graph e h = absurd (ground (arith))
  evict_among-shorter (n ∷ ns) graph e h =
      rw (e) (filter-shorter (least lc n ns).id (n ∷ ns) (least-listed lc n ns))

  node_ids-append :
      (ns : List MemoryNode) (n : MemoryNode)
      → node_ids (ns ++ (n ∷ [])) ≡ node_ids ns ++ (n.id ∷ [])
  node_ids-append [] n = refl
  node_ids-append (m ∷ ns) n = ap (λ ids. m.id ∷ ids) (node_ids-append ns n)

  append-IsUnique :
      (xs : List String) (y : String)
      → IsUnique xs
      → includes xs y ≡ false
      → IsUnique (xs ++ (y ∷ []))
  append-IsUnique [] y h e = (refl, tt)
  append-IsUnique (x ∷ xs) y h e = (
    ground (arith, includes-append xs (y ∷ []) x, eq_iff x y, eq_iff y x),
    append-IsUnique xs y h.1 (ground (arith)),
  )

  ends-append :
      (ids : List String) (y : String) (es : List MemoryEdge)
      → all (has_ends ids) es ≡ true
      → all (has_ends (ids ++ (y ∷ []))) es ≡ true
  ends-append ids y [] h = refl
  ends-append ids y (e ∷ es) h = ground (
    arith,
    ends-append ids y es,
    includes-append ids (y ∷ []) e.from,
    includes-append ids (y ∷ []) e.to,
  )

  pushed-IsBounded :
      (c : Concept) (t : Option String) (graph : MemoryGraph)
      → has_node c.id graph.nodes ≡ false
      → IsBounded graph
      → IsBounded (pushed lc c t graph).0
  pushed-IsBounded c t graph e h =
      if-both (λ (r : MemoryGraph × Bool). IsBounded r.0) (leb max_nodes (length graph.nodes)) _ _
        (λ _. h)
        (λ few. record {
          few_nodes = ground (arith, length-append graph.nodes (new_node lc c t ∷ []));
          few_edges = h.few_edges;
          node_counts = ground (
            arith,
            all-append (λ n. is_count n.count) graph.nodes (new_node lc c t ∷ []),
            h.node_counts,
          );
          edge_counts = h.edge_counts;
          ids_unique = rw (node_ids-append graph.nodes (new_node lc c t)) (
              append-IsUnique (node_ids graph.nodes) c.id h.ids_unique
                (sym (has_node-includes c.id graph.nodes) ∙ e));
          ends =
              rw (node_ids-append graph.nodes (new_node lc c t))
                (ends-append (node_ids graph.nodes) c.id graph.edges h.ends);
        })

  evict_among-misses :
      (c : String) (ns : List MemoryNode) (graph : MemoryGraph)
      → has_node c graph.nodes ≡ false
      → has_node c (evict_among lc ns graph).nodes ≡ false
  evict_among-misses c [] graph h = h
  evict_among-misses c (n ∷ ns) graph h =
      any_filtered (λ (m : MemoryNode). m.id == c) (λ m. not (m.id == (least lc n ns).id))
        graph.nodes h

  upsert-IsBounded :
      (graph : MemoryGraph) (c : Concept) (t : Option String)
      → IsBounded graph
      → IsBounded (upsert lc graph c t).0
  unfolding upsert evict_one
  upsert-IsBounded graph c t h =
      if-both (λ (r : MemoryGraph × Bool). IsBounded r.0) (has_node c.id graph.nodes) _ _
        (λ _. record {
          few_nodes =
              ground
                (arith, touch-length c.id (or_option t graph.updated_at) graph.nodes, h.few_nodes);
          few_edges = h.few_edges;
          node_counts = touch-counts c.id (or_option t graph.updated_at) graph.nodes h.node_counts;
          edge_counts = h.edge_counts;
          ids_unique = rw (touch-ids c.id (or_option t graph.updated_at) graph.nodes) h.ids_unique;
          ends = rw (touch-ids c.id (or_option t graph.updated_at) graph.nodes) h.ends;
        })
        (λ e.
          if-both (λ (g : MemoryGraph). IsBounded (pushed lc c (or_option t graph.updated_at) g).0)
            (leb max_nodes (length graph.nodes)) _ _
            (λ _.
              pushed-IsBounded c (or_option t graph.updated_at) (evict_among lc graph.nodes graph)
                (evict_among-misses c.id graph.nodes graph e)
                (evict_among-IsBounded graph.nodes graph h))
            (λ _. pushed-IsBounded c (or_option t graph.updated_at) graph e h))

  pub upsert_all-IsBounded :
      (graph : MemoryGraph) (cs : List Concept) (t : Option String)
      → IsBounded graph
      → IsBounded (upsert_all lc graph cs t).0
  upsert_all-IsBounded graph [] t h = h
  upsert_all-IsBounded graph (c ∷ cs) t h =
      upsert_all-IsBounded (upsert lc graph c t).0 cs t (upsert-IsBounded graph c t h)
