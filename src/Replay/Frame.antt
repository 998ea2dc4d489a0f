-- ===== src/Replay/Frame.antt =====
-- The counters, the iteration number and the limit under the operations on nodes and edges.
use iterative_context.Prelude.{
  ◌≡◌, refl, ◌∙◌, inl, inr, ◌||◌, Option, some, List, [], ◌∷◌, arith, Bool-cases, Option-cases,
  List-cases,
}
use iterative_context.Text.{Str, codes, str_eq}
use iterative_context.Dict.{has}
use iterative_context.Models.{Node, GraphEvent}
use iterative_context.Anchor.{AnchorCandidate}
use iterative_context.Replay.Payload.{Payload, FrontierCandidate, normalize_node}
use iterative_context.Replay.Recorder.{
  Recorder, ReplayEvent, append_batch, fresh_nodes, fresh_edges, add_nodes, add_edges, apply_update,
  update_node, prune_node, add_nodes_event, add_edges_event, state_patch,
}
use iterative_context.Replay.Visible.{any_frontier}
use iterative_context.Replay.Observe.{
  prune_others, select_anchor, show_anchors, record_candidate_score, record_scores, prune_listed,
  show_frontier, ensure_node_known, observe_event, observe_expansion, score_patch,
}

pub record SameCounts (r t : Recorder) : Type 0 where
  pub summary : t.summary ≡ r.summary
  pub iteration : t.iteration ≡ r.iteration
  pub limit : t.max_visible_pending ≡ r.max_visible_pending

pub SameCounts-refl : (r : Recorder) → SameCounts r r
SameCounts-refl r = record { summary = refl; iteration = refl; limit = refl }

pub SameCounts-trans : (r s t : Recorder) → SameCounts r s → SameCounts s t → SameCounts r t
SameCounts-trans r s t a b = record {
  summary = b.summary ∙ a.summary;
  iteration = b.iteration ∙ a.iteration;
  limit = b.limit ∙ a.limit;
}

append_batch-SameCounts :
    (r : Recorder) (ns : List Payload) (e : ReplayEvent) → SameCounts r (append_batch r ns e)
append_batch-SameCounts r [] e = SameCounts-refl r
append_batch-SameCounts r (x ∷ xs) e = record { summary = refl; iteration = refl; limit = refl }

pub add_nodes-SameCounts :
    (ns : List Payload) (reason : Option Str) (r : Recorder) → SameCounts r (add_nodes ns reason r)
unfolding add_nodes
add_nodes-SameCounts ns reason r =
    let (fresh, known) = fresh_nodes ns r.known_nodes in
    let kept =
      append_batch-SameCounts (record r { known_nodes = known }) fresh
        (add_nodes_event fresh reason) in
    record { summary = kept.summary; iteration = kept.iteration; limit = kept.limit }

pub add_edges-SameCounts :
    (es : List Payload) (reason : Option Str) (r : Recorder) → SameCounts r (add_edges es reason r)
unfolding add_edges
add_edges-SameCounts es reason r =
    let (fresh, known) = fresh_edges es r.known_edges in
    let kept =
      append_batch-SameCounts (record r { known_edges = known }) fresh
        (add_edges_event fresh reason) in
    record { summary = kept.summary; iteration = kept.iteration; limit = kept.limit }

pub update_node-SameCounts :
    (i : Str) (patch : Payload) (reason : Option Str) (r : Recorder)
    → SameCounts r (update_node i patch reason r)
unfolding update_node apply_update
update_node-SameCounts i patch reason r = ground arith

pub prune_node-SameCounts : (i reason : Str) (r : Recorder) → SameCounts r (prune_node i reason r)
unfolding prune_node
prune_node-SameCounts i reason r =
    update_node-SameCounts i (state_patch (codes "pruned")) (some reason) r

prune_others-SameCounts :
    (selected : Str) (cs : List AnchorCandidate) (r : Recorder)
    → SameCounts r (prune_others selected cs r)
unfolding prune_others
prune_others-SameCounts selected [] r = SameCounts-refl r
prune_others-SameCounts selected (c ∷ cs) r = elim (Bool-cases (str_eq c.node_id selected)) [
  | inl e ↦ rw e (prune_others-SameCounts selected cs r)
  | inr n ↦ rw n (
      SameCounts-trans r _ _ (prune_node-SameCounts c.node_id (codes "anchor_candidate_pruned") r)
        (prune_others-SameCounts selected cs _))
]

pub show_anchors-SameCounts :
    (visible : List AnchorCandidate) (r : Recorder) → SameCounts r (show_anchors visible r)
unfolding show_anchors
show_anchors-SameCounts visible r = add_nodes-SameCounts _ _ r

pub select_anchor-SameCounts :
    (selected : Str) (visible : List AnchorCandidate) (r : Recorder)
    → SameCounts r (select_anchor selected visible r)
unfolding select_anchor
select_anchor-SameCounts selected visible r =
    SameCounts-trans r _ _
      (update_node-SameCounts selected (state_patch (codes "anchor"))
        (some (codes "selected_anchor")) r)
      (prune_others-SameCounts selected visible _)

record_candidate_score-SameCounts :
    (c : FrontierCandidate) (r : Recorder) → SameCounts r (record_candidate_score c r)
unfolding record_candidate_score
record_candidate_score-SameCounts c r = elim (List-cases (score_patch c)) [
  | inl e ↦ rw (e, record_candidate_score) (SameCounts-refl r)
  | inr (x, xs, e) ↦
      rw (e, record_candidate_score)
        (update_node-SameCounts c.node_id (x ∷ xs) (some (codes "candidate_scored")) r)
]

pub record_scores-SameCounts :
    (cs : List FrontierCandidate) (r : Recorder) → SameCounts r (record_scores cs r)
unfolding record_scores
record_scores-SameCounts [] r = SameCounts-refl r
record_scores-SameCounts (c ∷ cs) r =
    SameCounts-trans r _ _ (record_candidate_score-SameCounts c r) (record_scores-SameCounts cs _)

pub prune_listed-SameCounts :
    (visible : List FrontierCandidate) (ids : List Str) (r : Recorder)
    → SameCounts r (prune_listed visible ids r)
unfolding prune_listed
prune_listed-SameCounts visible [] r = SameCounts-refl r
prune_listed-SameCounts visible (i ∷ ids) r =
    elim (Bool-cases (has i r.known_nodes || any_frontier i visible)) [
      | inl e ↦ rw e (
          SameCounts-trans r _ _ (prune_node-SameCounts i (codes "frontier_pruned") r)
            (prune_listed-SameCounts visible ids _))
      | inr n ↦ rw n (prune_listed-SameCounts visible ids r)
    ]

pub show_frontier-SameCounts :
    (visible : List FrontierCandidate) (r : Recorder) → SameCounts r (show_frontier visible r)
unfolding show_frontier
show_frontier-SameCounts visible r =
    SameCounts-trans r _ _ (add_nodes-SameCounts _ _ r) (add_edges-SameCounts _ _ _)

module _ (node_data : Str → Option Node) where
  ensure_node_known-SameCounts :
      (i : Str) (r : Recorder) → SameCounts r (ensure_node_known node_data i r)
  unfolding ensure_node_known
  ensure_node_known-SameCounts i r = elim (Bool-cases (has i r.known_nodes)) [
    | inl e ↦ rw (e, ensure_node_known) (SameCounts-refl r)
    | inr n ↦ elim (Option-cases (node_data i)) [
      | inl e ↦ rw (n, e, ensure_node_known) (SameCounts-refl r)
      | inr (node, e) ↦
          rw (n, e, ensure_node_known)
            (add_nodes-SameCounts (normalize_node node ∷ []) (some (codes "frontier_visible")) r)
    ]
  ]

  observe_event-SameCounts :
      (source_id : Str) (e : GraphEvent) (r : Recorder)
      → SameCounts r (observe_event node_data source_id e r)
  unfolding observe_event
  observe_event-SameCounts source_id (GraphEvent.add_nodes nodes reason) r =
      add_nodes-SameCounts _ _ r
  observe_event-SameCounts source_id (GraphEvent.add_edges edges reason) r =
      add_edges-SameCounts _ _ r
  observe_event-SameCounts source_id (GraphEvent.update_node i patch) r =
      SameCounts-trans r _ _ (ensure_node_known-SameCounts i r) (update_node-SameCounts _ _ _ _)
  observe_event-SameCounts source_id (GraphEvent.iteration step description) r = record {
    summary = refl;
    iteration = refl;
    limit = refl;
  }

  pub observe_expansion-SameCounts :
      (source_id : Str) (es : List GraphEvent) (r : Recorder)
      → SameCounts r (observe_expansion node_data source_id es r)
  unfolding observe_expansion
  observe_expansion-SameCounts source_id [] r = SameCounts-refl r
  observe_expansion-SameCounts source_id (e ∷ es) r =
      SameCounts-trans r _ _ (observe_event-SameCounts source_id e r)
        (observe_expansion-SameCounts source_id es _)
