-- ===== src/Lib.antt =====
-- A verification library for OneCatch, a desktop workbench that runs coding agents on tasks and on
-- workflows of steps. It covers the state machine of workflows, the definitions that it runs on, the
-- scheduler that drives their runs, the catalog of harnesses, and the hubs that tell the window what has
-- changed.
--
-- Parts, each with the Go file that it models (paths from the root of the repository):
-- - Harness: internal/domain/harnesses/catalog.go.
-- - Settings: internal/domain/settings/model.go, with Normalize in Settings/Normalize. The sections on
--   security and experiments, which these functions only copy, are left out.
-- - Task: internal/domain/tasks/task.go.
-- - Workflow/Model: internal/domain/workflows/model.go, the records.
-- - Workflow/Graph: internal/domain/workflows/graph.go. Descendants, ReworkPath and the lists of
--   neighbours keep their names (`descendants`, `rework_path`, `upstream`, `downstream`).
-- - Workflow/Normalize and Workflow/Validation: internal/domain/workflows/validation.go. `validate`
--   lists the issues in the source's order; `Validation/Spec` says what a valid definition is, and
--   `Validation/Acyclic` has the search for cycles.
-- - Workflow/State, Workflow/Verdict, Workflow/Lifecycle: internal/domain/workflows/engine.go. State has
--   the nodes of a run, Verdict the outcomes and failures of steps, Lifecycle the start, pause, resume
--   and end of a run. `new_run` is NewRun, `apply_outcome` ApplyOutcome, and so on.
-- - Workflow/Loop: internal/domain/workflows/loop.go.
-- - Workflow/Protocol: internal/domain/workflows/protocol.go, with the JSON decoder as a parameter.
-- - Scheduler: internal/usecase/workflows/scheduler.go and execution_refresh.go, with
--   RefreshStepSettings and RefreshRunDefinition of resume_models.go beside them. Refresh takes over
--   settings, Start is startReadySteps, Results applyStepResult, Turns the loop of drive (`turn` is one
--   round of it) and what follows it, Answers agentOutcome. Steps is executeStep, with commandOutcome of
--   command.go, and Sandbox allowedSandbox of usecase.go. The other files hold the proofs.
-- - RunStore: UpdateRun of internal/repo/workflows/repo.go.
-- - Desktop/RunState, Desktop/ListChange, Desktop/RunStream: the files hub.go of the directories
--   runstate, listchange and runstream of internal/service/desktop. Their frames come from
--   internal/usecase/workflows/usecase.go and internal/usecase/agentrun/event.go.
-- - Collector: internal/usecase/workflows/runtime_stream.go. `push` is Push, `close` Close, and
--   `live_fires` and `durable_fires` are what its two timers call; the storage is a parameter.
-- - Base: shared lists, texts, maps and integers. Examples: a workflow and runs of it on which the
--   theorems are applied.
--
-- How the parts interact: the engine normalizes and validates the definition that it is given, walks the
-- graph, and turns a run into a new run; definitions and tasks ask the catalog which harnesses exist. The
-- scheduler asks the engine which steps are ready, reads their replies by the protocol, gives the verdicts
-- to the engine, and writes the run to the store after each decision. What it relies on in its
-- surroundings is the record `Steady`.
--
-- Choices of the model. A run is a value, so the copy that each operation of the engine makes first is
-- the run itself. An error is a value that holds what its message shows. A time is a number, and 0 is the
-- zero time. Counters that start at 0 and only grow are natural numbers without the wrap-around at 2^63;
-- configured numbers are integers. A map is an association list of which the first entry of a key counts;
-- where the source walks a map in an arbitrary order, the model takes the order of the list, and the
-- theorems speak of single keys. A nil map is a map without entries; where a write to a nil map would
-- panic (NextLoopRound), a map without entries is taken for nil. Lower and upper case cover the letters that become ASCII, since
-- the results are compared with ASCII words and patterns only. The layout of the canvas is left out.
--
-- Bounds. The search of Descendants is given one round for its start and one for each edge, and the
-- search for cycles one for each step and each edge; both are enough, with cycles or without, and the
-- model of the search for cycles returns nothing if its rounds run out. Decimal digits recurse on the
-- well-founded order.
--
-- The hubs are modelled with what runs beside them: the timer of the runtime, flushes that wait for the
-- lock, and flushes that have released it and still emit. Each can take its next step at any time.
--
-- The loop of the scheduler is modelled one round at a time. All calls that leave it are answered by a
-- `World`, a new one for each round: the context (which may end at any place of the round), the clock
-- (read once in a round), the repository, the queue of instructions, and the resolvers of settings. The
-- goroutine of a step is the result that it sends, at any time while it is in flight; Steps says which,
-- from what the calls of the attempt answer. Cancelling the steps in flight, the log of events and the
-- text of the summary leave no trace in the state.
--
-- Not modelled: how a command is run (runCommand), the prompts, the records of attempts, workspaces,
-- storage but for UpdateRun, the adapters of the harnesses, remote workers, mobile access, terminals,
-- language servers, updates, and the window itself.
pub mod Base
pub mod Collector
pub mod Desktop
mod Examples
pub mod Harness
pub mod Settings
pub mod Task
pub mod Scheduler
pub mod RunStore
pub mod Workflow
