-- ===== src/Serialization/Summary/Laws.antt =====
-- The counts and samples of the digest.
use iterative_context.Prelude.{
  ℕ, suc, ◌+◌, min, ◌≡◌, refl, ap, ◌∙◌, some, List, [], ◌∷◌, arith, length, length-take, ℤ,
  max_zero,
}
use iterative_context.Text.{Str}
use iterative_context.Dict.{Dict, get, put}
use iterative_context.Sort.{sort, insert_sorted}
use iterative_context.DiGraph.{DiGraph, EdgeEntry}
use iterative_context.Events.{NodeAttrs, EdgeAttrs}
use iterative_context.Replay.Payload.{Payload, kind_text, state_text}
use iterative_context.Traversal.Soundness.{IsSound}
use iterative_context.Serialization.{edge_type}
use iterative_context.Serialization.Summary.{
  bump, Tally, no_tally, summary_file, summary_symbol, tally_node, tally_nodes, tally_edges,
  count_lt, summary_of, GraphSummary, serialize_graph_summary,
}

-- the sum of the counts
unfoldable pub total : Dict ℕ → ℕ
total [] = 0
total ((k, n) ∷ d) = n + total d

total-bump : (k : Str) (d : Dict ℕ) → total (bump k d) ≡ suc (total d)
unfolding bump total get put
total-bump k [] = refl
total-bump k ((j, n) ∷ d) = ground (arith, total-bump k d)

total-insert_sorted :
    (x : Str × ℕ) (d : Dict ℕ) → total (insert_sorted count_lt x d) ≡ x.1 + total d
unfolding total insert_sorted
total-insert_sorted x [] = refl
total-insert_sorted x (y ∷ d) = ground (arith, total-insert_sorted x d)

total-sort : (d : Dict ℕ) → total (sort count_lt d) ≡ total d
unfolding total sort
total-sort [] = refl
total-sort ((k, n) ∷ d) = total-insert_sorted (k, n) (sort count_lt d) ∙ ap (◌+◌ n) (total-sort d)

tally_sound :
    (ns : List (Str × NodeAttrs)) (t : Tally)
    → IsSound ns
    → (t' : Tally) × (tally_nodes ns t ≡ some t')
      × (total t'.nodes_by_kind ≡ total t.nodes_by_kind + length ns)
      × (total t'.nodes_by_state ≡ total t.nodes_by_state + length ns)
unfolding tally_nodes tally_node summary_file summary_symbol
tally_sound [] t h = (t, refl, omega arith, omega arith)
tally_sound ((i, a) ∷ ns) t ((n, e, _), h) =
    let (t', q, k, s) = tally_sound ns (tally_node n a t) h in
    (
      t',
      rw (e, tally_nodes) q,
      omega (arith, k, total-bump (kind_text n.kind) t.nodes_by_kind),
      omega (arith, s, total-bump (state_text n.state) t.nodes_by_state),
    )

total-tally_edges :
    (es : List (EdgeEntry EdgeAttrs)) (d : Dict ℕ) → total (tally_edges es d) ≡ total d + length es
unfolding tally_edges
total-tally_edges [] d = omega arith
total-tally_edges (e ∷ es) d =
    omega
      (arith, total-tally_edges es (bump (edge_type e.attrs) d), total-bump (edge_type e.attrs) d)

-- what a digest says of the graph it is made from
pub record IsDigest (node_count edge_count : ℕ) (max_files max_symbols : ℤ) (s : GraphSummary)
    : Type 0 where
  pub counts_nodes : (s.node_count ≡ node_count) × (s.edge_count ≡ edge_count)
  pub kinds_add_up : total s.nodes_by_kind ≡ node_count
  pub states_add_up : total s.nodes_by_state ≡ node_count
  pub edges_add_up : total s.edges_by_kind ≡ edge_count
  pub files_bounded : length s.files_sample ≡ min (max_zero max_files) s.files_total
  pub symbols_bounded : length s.symbols_sample ≡ min (max_zero max_symbols) s.symbols_total

module _ (nx : DiGraph NodeAttrs EdgeAttrs) where
  open nx use {Graph, nodes, edges}

  -- The digest of a graph whose every node is stored with its data under its own identifier is made
  -- without an exception. Its counts by kind and by state each add up to the number of nodes, and
  -- those of the edges to the number of edges. A sample is as long as its limit allows.
  pub serialize_graph_summary-IsDigest :
      (g : Graph) (metadata : Payload) (max_files max_symbols : ℤ)
      → IsSound (nodes g)
      → (s : GraphSummary) × (serialize_graph_summary nx (some g) metadata max_files max_symbols
          ≡ some s)
        × IsDigest (length (nodes g)) (length (edges g)) max_files max_symbols s
  unfolding serialize_graph_summary summary_of total
  serialize_graph_summary-IsDigest g metadata max_files max_symbols h =
      let (t, q, k, l) = tally_sound (nodes g) no_tally h in
      (
        summary_of nx g metadata max_files max_symbols t,
        rw (q, serialize_graph_summary) refl,
        record {
          counts_nodes = (refl, refl);
          kinds_add_up = total-sort t.nodes_by_kind ∙ omega (arith, k);
          states_add_up = total-sort t.nodes_by_state ∙ omega (arith, l);
          edges_add_up =
              total-sort (tally_edges (edges g) []) ∙ omega (arith, total-tally_edges (edges g) []);
          files_bounded = length-take _ _;
          symbols_bounded = length-take _ _;
        },
      )
