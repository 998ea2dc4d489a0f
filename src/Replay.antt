-- ===== src/Replay.antt =====
-- graph_replay.py: the recorder of graph replay traces.
--   Payload   the dicts that nodes, edges and candidates are recorded as
--   Recorder  the recorder's state and the operations that append events
--   Visible   which candidates of a decision are shown
--   Observe   the handlers of decisions and expansions
pub mod Payload
pub mod Recorder
pub mod Visible
pub mod Bounds
pub mod Shown
pub mod Observe
pub mod Metadata
pub mod Portable
pub mod Collect
pub mod Replayer
pub mod Rebuild
pub mod Handlers
pub mod Calls
pub mod Trace
pub mod Frame
pub mod Counters
