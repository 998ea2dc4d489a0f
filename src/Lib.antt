-- ===== src/Lib.antt =====
-- A model of Iterative Context, a Python package that grows a graph of a repository's symbols node
-- by node and records what it did as a replay trace. The sources lie under src/iterative_context/.
--
-- The parts and how they interact. An event (graph_models.py) adds nodes or edges to a graph or
-- patches a node; apply_events (test_helpers/graph_dsl.py) applies events to a networkx.DiGraph.
-- expand_node (expansion.py) gives the events that expand one node. run_traversal (traversal.py)
-- ranks the pending nodes by the score of a policy (scoring.py, checked by selection_policy.py),
-- expands the best one, and repeats. It tells a recorder (graph_replay.py) each decision before the
-- expansion and the events after it. The recorder shows a part of the candidates, and keeps a list of
-- events for a viewer, which `collect` returns. Identifiers of nodes are made and read by
-- path_ids.py. The store (store.py) indexes a graph and finds the node that a query means, exactly, by
-- fuzzy ranking (fuzzy_rank.py) or by file; or it collects candidates, between which a policy decides
-- (anchor_policy.py). A session (graph_session.py) holds the graph of a repository: a tree of parsed
-- files (raw_tree.py) is normalised into a graph (normalize.py), from which the session builds its own
-- graph and a store. `expand` searches the nodes around a node, traverses them, and returns a snapshot
-- of what is then around it (serialization.py). exploration.py keeps one session for all callers. The
-- tool server (server.py) installs a policy, reads the arguments of its tools, and tells a caller of
-- earlier calls.
--
-- The files:
--   Models, PathIds           graph_models.py and path_ids.py
--   Anchor, FuzzyRank, Store  anchor_policy.py, fuzzy_rank.py and store.py (Store/Resolve: resolve and
--                             the candidates)
--   Replay/Payload, Recorder, Visible, Observe, Metadata, Collect
--                             graph_replay.py: the dicts of a trace, the recorder's state and its
--                             methods, the choice of shown candidates, the handlers of decisions and
--                             expansions, the checks on metadata, and collect
--   Replay/Replayer, Rebuild, Handlers, Calls, Trace
--                             a viewer of traces as a specification, and the recorder against it
--   Replay/Frame, Counters    the counters of the summary
--   Replay/Bounds, Shown      how many candidates are shown, and which
--   Replay/Portable           the metadata that collect accepts
--   DiGraph, DiGraph/Lists    networkx.DiGraph as an interface with laws, and an instance of it
--   Events                    apply_events and the replay of test_helpers/graph_dsl.py (Events/Nodes
--                             and Patched: the nodes under events; Closed: the edges; Snapshots: the
--                             replay)
--   Expansion, Scoring        expansion.py; scoring.py and selection_policy.py
--   Traversal                 traversal.py (Traversal/Candidates: the frontier and its candidates)
--   Reach                     searches within a radius: the specification, the search that marks a
--                             node when it enters the queue (Marked, store.py) and the search that
--                             marks it when it leaves (Popped, graph_session.py)
--   Store/Neighborhood        get_neighborhood of store.py
--   Normalize                 raw_tree.py and normalize.py
--   Serialization             serialization.py (Serialization/Summary: the digest of a graph)
--   Session                   graph_session.py (Session/Build: the graph of a repository; Signature:
--                             the hashes and what a session asks of the machine; Invariant: the
--                             states of a session; Loading: ensure_loaded; Expand:
--                             GraphSession.expand)
--   Exploration               exploration.py and scoring_eval.py
--   Server                    server.py (Server/History, Arguments, Policy; Resolve: the resolve tool)
--   Prelude, Text, Float, Dict, Sort, Value
--                             Python's values: texts as lists of code points, floats by their bits,
--                             dicts in order of insertion, stable sorts, and the values of JSON
--   Tests                     the theorems at concrete inputs
--
-- How the code is read. A method that changes an object is a function from its state to its state; a
-- function that raises returns a Result or an Option, and where the object is changed before it
-- raises, the changed state is returned as well. Names are those of the source, without a leading
-- underscore. Loops over lists are structural recursions, and `for step in range(steps)` is a
-- recursion on the steps that are left. Only the loops over a queue take fuel, as an argument of the
-- function; a theorem on such a loop says that there is an amount from which on every amount gives the
-- same result. Identifiers are texts, steps and counts natural numbers; ranks and tokens are integers
-- without a bound, as Python's.
--
-- Parameters: networkx.DiGraph, rapidfuzz, the arithmetic of floats (comparisons are by the IEEE
-- rules), md5, sha256, str.lower, the methods of pathlib.Path, and for a session the Platform: the
-- files, json and git as they are during one call, and ingest_repo (injest/llm_tldr_adapter.py), which
-- is not modelled. Reading a source, ingesting and running git may raise; resolving a path and listing
-- the sources are taken to succeed. For the server, the modules of policies. A scoring policy is any
-- function, an expansion policy any function that raises nothing. The attribute dict of a node or an
-- edge is a record of the keys that the program reads. Where an edge is added again, networkx merges
-- the attributes and the interface replaces them, which is the same where both have the same keys, as
-- the edges have that the program adds.
--
-- Not modelled: pydantic's validation but for the kind of a stored edge, deepcopy (a copy is the value
-- itself), the server's tools for expansion and for traces, ingestion, the validation of policies and
-- the helpers of tests other than apply_events and the replay, whose code is I/O, wiring, or outside
-- the scope of this model. Where a traversal raises, what its recorder was told before is not part of
-- the result.
pub mod Prelude
pub mod Text
pub mod Float
pub mod Dict
pub mod Sort
pub mod Value
pub mod PathIds
pub mod Models
pub mod Anchor
pub mod Replay
pub mod DiGraph
pub mod Events
pub mod Expansion
pub mod Scoring
pub mod Traversal
pub mod FuzzyRank
pub mod Reach
pub mod Store
pub mod Normalize
pub mod Serialization
pub mod Session
pub mod Exploration
pub mod Server
pub mod Tests
