-- ===== src/Tests/Sessions.antt =====
-- A repository of two files, loaded into a session and expanded.
use iterative_context.Prelude.{
  Result, ok, err, ℕ, ◌+◌, ◌≡◌, ◌≢◌, ◌⊎◌, refl, false, Option, none, some, List, [], ◌∷◌, length,
  pos,
}
use iterative_context.Text.{Str, codes, str_eq, str_lt, mem}
use iterative_context.Sort.{sort, insert_sorted}
use iterative_context.Dict.{has, get, put}
use iterative_context.DiGraph.{DiGraph}
use iterative_context.DiGraph.Lists.{list_graph}
use iterative_context.Normalize.{
  RawAttrs, RawTree, RawFunction, raw_tree_to_graph, ensure_node, add_all_raw_edges, add_raw_edges,
  add_raw_edge, ensure_all_functions, ensure_functions,
}
use iterative_context.Normalize.Laws.{IsNormal, raw_tree_to_graph-IsNormal, nodes-ensure_node}
use iterative_context.Session.{
  Session, Stamped, new_session, no_root, path_root, ensure_loaded, normalize_repo_root,
  or_own_root, is_current, copy_loaded_state_from, read_repository, reset_session,
}
use iterative_context.Session.Build.{build_graph, copy_nodes, copy_edges}
use iterative_context.Session.Build.Laws.{build_indexes-build_graph, build_graph-IsSound}
use iterative_context.Session.Build.Nodes.{AllBuilt, build_graph-AllBuilt}
use iterative_context.Session.Invariant.{
  IsConsistent, unloaded, loaded, IsCopy, copy_loaded_state_from-IsCopy,
}
use iterative_context.Session.Loading.{IsLoaded, ensure_loaded-IsLoaded}
use iterative_context.Session.Loading.Again.{changed, or_before, ensure_loaded_again}
use iterative_context.Session.Signature.{
  Platform, Source, SessionError, bytes, or_raise, compute_source_signature, hashed_sources,
  iter_python_sources,
}
use iterative_context.Session.Expand.{ExpandError, expand}
use iterative_context.Session.Expand.Laws.{EndsExpanded, expand_ends}
use iterative_context.Serialization.{GraphSnapshot}
use iterative_context.Serialization.Summary.{GraphSummary, serialize_graph_summary}
use iterative_context.Serialization.Summary.Laws.{IsDigest, serialize_graph_summary-IsDigest}
use iterative_context.Store.{Store}
use iterative_context.Store.Neighborhood.{neighbors, get_neighborhood, get_neighborhood-near}
use iterative_context.Reach.{near}
use iterative_context.Replay.Recorder.{Recorder}
use iterative_context.Exploration.{ensure_graph_loaded}
use iterative_context.Exploration.Laws.{ensure_graph_loaded-ensure_loaded}
use iterative_context.Tests.Graphs.{nx, ops}

abbrev pub raw : DiGraph RawAttrs Str
raw = list_graph RawAttrs Str

abbrev pub main_function : RawFunction
main_function = record {
  id = codes "function:a.py::main";
  name = codes "main";
  file = codes "a.py";
}

-- a file with one function, one import and one call
abbrev pub tree : RawTree
tree = record {
  files =
      record {
        path = codes "a.py";
        functions = main_function ∷ [];
        imports = codes "os" ∷ [];
        edges =
            record { source = codes "file:a.py"; target = codes "module:os"; kind = codes "import" }
            ∷ record {
              source = codes "function:a.py::main";
              target = codes "symbol:run";
              kind = codes "call";
            }
            ∷ [];
      }
      ∷ [];
}

abbrev pub platform : Platform
platform = record {
  resolve = λ x. x;
  cwd = codes "/repo";
  rglob = λ root. [];
  path_lt = λ a b. false;
  utf8 = λ s. s;
  sha256 = λ b. b;
  hex = λ b. b;
  dumps = λ v. codes "{}";
  git = λ root args. some none;
  ingest_repo = λ root. some tree;
}

abbrev pub fresh : Session nx.Graph
fresh = new_session (codes "ic-session:1")

abbrev graph : nx.Graph
graph = build_graph raw nx tree

abbrev stamped : Stamped nx.Graph
stamped = record { graph = graph; source_stamp = none; graph_stamp = none }

abbrev with_graph : Session nx.Graph
with_graph = record fresh { graph = some stamped }

raw_tree_to_graph-IsNormal_example : IsNormal raw (raw_tree_to_graph raw tree)
raw_tree_to_graph-IsNormal_example = raw_tree_to_graph-IsNormal raw tree

nodes-ensure_node_example :
    raw.nodes (
      ensure_node raw
        (codes "module:os")
        (codes "type")
        (codes "os")
        none
        (raw_tree_to_graph raw tree))
    ≡ raw.nodes (raw_tree_to_graph raw tree)
unfolding raw_tree_to_graph has add_all_raw_edges sort insert_sorted add_raw_edges str_eq str_lt
    add_raw_edge ensure_node get ensure_all_functions ensure_functions put
nodes-ensure_node_example =
    nodes-ensure_node raw (codes "module:os") (codes "type") (codes "os") none
      (raw_tree_to_graph raw tree) (raw_tree_to_graph-IsNormal raw tree) refl

build_graph-AllBuilt_example : AllBuilt (raw.nodes (raw_tree_to_graph raw tree)) (nx.nodes graph)
build_graph-AllBuilt_example = build_graph-AllBuilt raw nx tree

ensure_loaded-IsLoaded_example :
    ((e : SessionError) × (ensure_loaded platform nx raw no_root fresh ≡ (fresh, some e))
      × ((compute_source_signature platform (codes "/repo") ≡ err e)
          ⊎ (read_repository platform (codes "/repo") ≡ err e)))
    ⊎ ((s' : Session nx.Graph) × (sig : Str) × (ensure_loaded platform nx raw no_root fresh
          ≡ (s', none))
        × IsConsistent nx s'
        × (compute_source_signature platform (codes "/repo") ≡ ok sig)
        × IsLoaded (codes "/repo") sig s')
unfolding normalize_repo_root or_own_root
ensure_loaded-IsLoaded_example =
    ensure_loaded-IsLoaded nx raw platform no_root fresh (unloaded _ _ _ _)

abbrev source_signature : Str
source_signature = codes "sha256:iterative-context.source-signature.v1"

-- the graph that is loaded, with its index and its signatures
abbrev loaded_session : Session nx.Graph
loaded_session = record {
  repo_root = some (codes "/repo");
  repo_identity = some (record {
    repo_root = codes "/repo";
    repo_url = none;
    commit = none;
    workspace_kind = some (codes "filesystem");
  });
  graph = some (record {
    graph = graph;
    source_stamp = some source_signature;
    graph_stamp = some (codes "sha256:{}");
  });
  store = some (build_indexes-build_graph raw nx tree).0;
  source_signature = some source_signature;
  graph_signature = some (codes "sha256:{}");
  graph_builder_id = codes "iterative-context.graph-builder.v1";
  normalization_version = codes "iterative-context.normalize.v1";
  session_id = codes "ic-session:1";
}

-- a file that is there later
abbrev later_file : Source
later_file = record {
  parts = codes "b.py" ∷ [];
  relative = some (codes "b.py");
  contents = bytes (codes "pass");
}

abbrev later : Platform
later = changed (λ root. later_file ∷ []) (λ root args. some none) (λ root. some tree) platform

ensure_loaded_again_example :
    ((codes "sha256:iterative-context.source-signature.v1b.pypass" ≡ source_signature)
      × (ensure_loaded later nx raw no_root loaded_session ≡ (loaded_session, none)))
    ⊎ ((codes "sha256:iterative-context.source-signature.v1b.pypass" ≢ source_signature)
        × (ensure_loaded later nx raw no_root loaded_session
            ≡ or_before loaded_session
                (ensure_loaded later nx raw no_root (reset_session false loaded_session))))
unfolding ensure_loaded compute_source_signature iter_python_sources hashed_sources or_raise sort
    insert_sorted is_current normalize_repo_root or_own_root str_eq mem
ensure_loaded_again_example =
    ensure_loaded_again nx raw platform (λ root. later_file ∷ []) (λ root args. some none)
      (λ root. some tree) no_root loaded_session loaded_session source_signature
      (codes "sha256:iterative-context.source-signature.v1b.pypass") (λ x. refl) refl refl refl refl

copy_loaded_state_from-IsCopy_example :
    IsConsistent nx (copy_loaded_state_from platform nx loaded_session fresh).1.0
    × ((copy_loaded_state_from platform nx loaded_session fresh).1.1 ≡ none)
    × (((loaded_session.graph ≡ none)
          × ((copy_loaded_state_from platform nx loaded_session fresh).1.0 ≡ fresh))
        ⊎ ((loaded_session.graph ≢ none)
            × IsCopy nx platform loaded_session
                (copy_loaded_state_from platform nx loaded_session fresh).1.0))
copy_loaded_state_from-IsCopy_example =
    copy_loaded_state_from-IsCopy nx platform loaded_session fresh
      (loaded graph _ _ _ _ _ _ _ _ (build_indexes-build_graph raw nx tree).1) (unloaded _ _ _ _)

ensure_graph_loaded-ensure_loaded_example :
    ensure_graph_loaded platform nx raw (some (codes "/repo")) fresh
    ≡ ensure_loaded platform nx raw (path_root (codes "/repo")) fresh
ensure_graph_loaded-ensure_loaded_example =
    ensure_graph_loaded-ensure_loaded platform nx raw (codes "/repo") fresh (unloaded _ _ _ _) refl

expand_ends_example :
    (enough : ℕ) × (r : Result ExpandError (GraphSnapshot × Option Recorder)) × ((fuel : ℕ)
      → expand nx ops (enough + fuel) (codes "module:os") (pos 1) none none with_graph ≡ some r)
    × EndsExpanded nx ops (codes "module:os") r
unfolding build_graph copy_nodes copy_edges raw_tree_to_graph has add_all_raw_edges sort
    insert_sorted add_raw_edges str_eq str_lt add_raw_edge ensure_node get ensure_all_functions
    ensure_functions put
expand_ends_example =
    expand_ends nx ops raw tree with_graph stamped (pos 1) (codes "module:os") none none refl refl
      refl

serialize_graph_summary-IsDigest_example :
    (s : GraphSummary) × (serialize_graph_summary nx (some graph) [] (pos 48) (pos 64) ≡ some s)
    × IsDigest (length (nx.nodes graph)) (length (nx.edges graph)) (pos 48) (pos 64) s
serialize_graph_summary-IsDigest_example =
    serialize_graph_summary-IsDigest nx graph [] (pos 48) (pos 64) (build_graph-IsSound raw nx tree)

-- a store without entries
abbrev empty_store : Store Unit
empty_store = record {
  graph = tt;
  nodes_by_id = [];
  index_by_symbol = [];
  index_by_file = [];
  out_edges = [];
  in_edges = [];
}

get_neighborhood-near_example :
    (enough : ℕ) × (visited : List Str) × ((fuel : ℕ)
      → get_neighborhood empty_store (enough + fuel) (codes "a") (pos 2) ≡ some visited)
    × ((z : Str) → mem z visited ≡ near (neighbors empty_store) 2 (codes "a") z)
get_neighborhood-near_example = get_neighborhood-near empty_store (codes "a") 2
