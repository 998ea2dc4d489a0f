-- ===== src/Replay/Rebuild.antt =====
-- The recorder against a consumer of its trace: what a step of the recorder must keep.
use iterative_context.Prelude.{
  sym, ◌∙◌, List-cases, ◌≡◌, refl, sym, ◌∙◌, inl, inr, Option, some, List, [], ◌∷◌, ◌++◌, arith,
  Option-cases, List-cases,
}
use iterative_context.Text.{Str, codes}
use iterative_context.Dict.{Dict, get, put}
use iterative_context.Dict.Laws.{put_new}
use iterative_context.Value.{null, as_str}
use iterative_context.Replay.Payload.{Payload, compact}
use iterative_context.Replay.Recorder.{
  Recorder, EdgeKey, ReplayEvent, add_nodes_event, add_edges_event, update_node_event, fresh_nodes,
  fresh_edges, append, append_batch, add_nodes, add_edges, apply_update, update_node, edge_key,
  append_iteration,
}
use iterative_context.Replay.Replayer.{
  View, consume, replay, replay_from-append, announce_nodes, announce_edges,
}

abbrev pub view_of : Recorder → View
view_of r = record { nodes = r.known_nodes; edges = r.known_edges }

-- the events so far rebuild the recorder's nodes and edges
pub record IsReplayable (r : Recorder) : Type 0 where
  pub replays : replay r.events ≡ some (view_of r)

-- a text that a dict has under a key is still there without the `None` entries
get-compact :
    (k : Str) (d : Payload) (s : Str)
    → as_str (get k d) ≡ some s
    → as_str (get k (compact d)) ≡ some s
unfolding get compact
get-compact k [] s h = h
get-compact k ((j, null) ∷ d) s h = ground (arith, get-compact k d s)
get-compact k ((j, v) ∷ d) s h = ground (arith, get-compact k d s)

edge_key-compact : (d : Payload) (k : EdgeKey) → edge_key d ≡ some k → edge_key (compact d) ≡ some k
unfolding edge_key
edge_key-compact d k h = ground (
  arith,
  get-compact (codes "source") d k.source,
  get-compact (codes "target") d k.target,
  get-compact (codes "kind") d k.kind,
)

announce-fresh_nodes :
    (nodes : List Payload) (known : Dict Payload)
    → announce_nodes (fresh_nodes nodes known).0 known ≡ some (fresh_nodes nodes known).1
unfolding announce_nodes fresh_nodes
announce-fresh_nodes [] known = refl
announce-fresh_nodes (node ∷ nodes) known = elim (Option-cases (as_str (get (codes "id") node))) [
  | inl e ↦ rw (e, fresh_nodes) (announce-fresh_nodes nodes known)
  | inr (i, e) ↦ ground (
    arith,
    get-compact (codes "id") node i e,
    put_new i (compact node) known,
    announce-fresh_nodes nodes known,
    announce-fresh_nodes nodes (put i (compact node) known),
  )
]

announce-fresh_edges :
    (edges : List Payload) (known : List EdgeKey)
    → announce_edges (fresh_edges edges known).0 known ≡ some (fresh_edges edges known).1
unfolding announce_edges fresh_edges
announce-fresh_edges [] known = refl
announce-fresh_edges (edge ∷ edges) known = elim (Option-cases (edge_key edge)) [
  | inl e ↦ rw (e, fresh_edges) (announce-fresh_edges edges known)
  | inr (k, e) ↦ ground (
    arith,
    edge_key-compact edge k e,
    announce-fresh_edges edges known,
    announce-fresh_edges edges (known ++ k ∷ []),
  )
]

-- An event that the consumer accepts, and that leads to the recorder's new knowledge.
pub append-IsReplayable :
    (r t : Recorder) (e : ReplayEvent)
    → IsReplayable r
    → t.events ≡ r.events
    → consume e (view_of r) ≡ some (view_of t)
    → IsReplayable (append t e)
append-IsReplayable r t e h same step = record {
  replays = rw (same, replay_from-append, h.replays) step;
}

-- A batch that is empty leaves no event, and nothing new to know.
batch-IsReplayable :
    (r t : Recorder) (mk : List Payload → ReplayEvent) (fresh : List Payload)
    → IsReplayable r
    → t.events ≡ r.events
    → consume (mk []) (view_of r) ≡ some (view_of r)
    → consume (mk fresh) (view_of r) ≡ some (view_of t)
    → IsReplayable (append_batch t fresh (mk fresh))
batch-IsReplayable r t mk [] h same empty step = record {
  replays = rw same (h.replays ∙ (sym empty ∙ step));
}
batch-IsReplayable r t mk (x ∷ xs) h same empty step =
    append-IsReplayable r t (mk (x ∷ xs)) h same step

pub add_nodes-IsReplayable :
    (nodes : List Payload) (reason : Option Str) (r : Recorder)
    → IsReplayable r
    → IsReplayable (add_nodes nodes reason r)
unfolding add_nodes consume
add_nodes-IsReplayable nodes reason r h =
    let (fresh, known) = fresh_nodes nodes r.known_nodes in
    batch-IsReplayable r (record r { known_nodes = known }) (λ ns. add_nodes_event ns reason) fresh
      h refl refl (rw (announce-fresh_nodes nodes r.known_nodes))

pub add_edges-IsReplayable :
    (edges : List Payload) (reason : Option Str) (r : Recorder)
    → IsReplayable r
    → IsReplayable (add_edges edges reason r)
unfolding add_edges consume
add_edges-IsReplayable edges reason r h =
    let (fresh, known) = fresh_edges edges r.known_edges in
    batch-IsReplayable r (record r { known_edges = known }) (λ es. add_edges_event es reason) fresh
      h refl refl (rw (announce-fresh_edges edges r.known_edges))

apply_update-IsReplayable :
    (i : Str) (current patch : Payload) (reason : Option Str) (r : Recorder)
    → get i r.known_nodes ≡ some current
    → IsReplayable r
    → IsReplayable (apply_update i current patch reason r)
unfolding apply_update consume
apply_update-IsReplayable i current patch reason r e h =
    append-IsReplayable r _ (update_node_event i patch reason) h refl (rw (e, consume))

pub update_node-IsReplayable :
    (i : Str) (patch : Payload) (reason : Option Str) (r : Recorder)
    → IsReplayable r
    → IsReplayable (update_node i patch reason r)
unfolding update_node
update_node-IsReplayable i patch reason r h = elim (Option-cases (get i r.known_nodes)) [
  | inl e ↦ rw (e, update_node) h
  | inr (current, e) ↦ elim (List-cases (compact patch)) [
    | inl f ↦ rw (e, f, update_node) h
    | inr (x, xs, f) ↦
        rw (e, f, update_node) (apply_update-IsReplayable i current (x ∷ xs) reason r e h)
  ]
]

pub append_iteration-IsReplayable :
    (description : Str) (r : Recorder)
    → IsReplayable r
    → IsReplayable (append_iteration description r)
unfolding append_iteration consume
append_iteration-IsReplayable description r h = append-IsReplayable r _ _ h refl refl

-- an operation that leaves events and knowledge alone
pub same-IsReplayable :
    (r t : Recorder) → t.events ≡ r.events → view_of t ≡ view_of r → IsReplayable r → IsReplayable t
same-IsReplayable r t e v h = record { replays = rw (e, v) h.replays }
