-- ===== src/Tests/Tools.antt =====
-- The `resolve` tool, called on a runtime with a policy that answers no decision.
use iterative_context.Prelude.{none, some, pos}
use iterative_context.Text.{codes}
use iterative_context.Value.{Fields, field, end, str}
use iterative_context.Anchor.{no_decision}
use iterative_context.Replay.Recorder.{new_recorder}
use iterative_context.Session.Invariant.{unloaded}
use iterative_context.Server.History.{clear_runtime_history}
use iterative_context.Server.Resolve.{Runtime, ResolveCalls, resolve_tool}
use iterative_context.Server.Resolve.Laws.{KeepsSession, resolve_tool-KeepsSession}
use iterative_context.Tests.Graphs.{nx}
use iterative_context.Tests.Sessions.{raw, platform, fresh}
use iterative_context.Tests.Server.{installed}

abbrev calls : ResolveCalls Unit
calls = record {
  lower = λ s. s;
  ratio = none;
  sub = λ x y. x;
  float_of = λ z. none;
  sha256 = λ s. s;
  call = λ f symbol candidates state. some no_decision;
}

abbrev runtime : Runtime nx.Graph Unit
runtime = record {
  installed_policy = some installed;
  graph_replay = new_recorder (pos 5);
  graph_session = fresh;
  history = clear_runtime_history;
  default_session = fresh;
}

abbrev symbol_main : Fields
symbol_main = field (some (codes "symbol")) (str (codes "main")) end

resolve_tool-KeepsSession_example :
    KeepsSession platform nx raw calls runtime
      (resolve_tool platform nx raw calls symbol_main runtime).1
resolve_tool-KeepsSession_example =
    resolve_tool-KeepsSession platform nx raw calls symbol_main runtime (unloaded _ _ _ _)
      (unloaded _ _ _ _)
