-- ===== src/Lib.antt =====
-- CursorClaw runs an autonomous agent: turns of a model that may call tools, on the request of a
-- user or on timers. This library models the parts that decide what the agent may do and when, and
-- the stores that these decisions rest on, each as the functions of one file of the program.
--
-- The parts, and how they interact.
-- Capabilities.antt is src/security/capabilities.ts: `CapabilityStore` with grants for a number of
-- uses in a scope and a time, and `requiredCapabilitiesForApproval`. Capabilities/Uses.antt counts
-- the uses left, Spending.antt and Granting.antt are about `consumeRequired` and `grant`.
-- Approvals.antt is src/security/approval-workflow.ts: `request`, `listRequests`, `resolve` and
-- the expiry; an approval issues grants in the store that the workflow shares. Approvals/Args.antt
-- is `sanitizeArgs`, with its limits in Bounds.antt; Lifecycle.antt, Issuing.antt and Repeats.antt
-- are about requests over histories of calls, the grants of an approval, and repeated requests.
-- Gate.antt is the gates of src/tools.ts: `CapabilityApprovalGate.approve` spends grants or files
-- a request. Gate/Grants.antt joins the gate, the workflow and the store. ExecTool.antt is
-- `createExecTool` of src/tools.ts, over any `ApprovalGate`: the questions that a command puts to
-- the gate before it reaches the sandbox, in ExecTool/Guards.antt, and what they cost with the
-- capability gate, in OneUse.antt. ToolRouter.antt is `ToolRouter` and `normalizeExecArgs` of the
-- same file: which calls reach a tool, in ToolRouter/Running.antt, what is logged, in
-- Decisions.antt, and the normal form of the arguments, in Normalizing.antt. RateLimit.antt is
-- `MethodRateLimiter` of src/security.ts and Budget.antt `AutonomyBudget` of src/scheduler.ts;
-- both rest on the sliding windows of Window.antt. Heartbeat.antt is `HeartbeatRunner`, which
-- charges the budget, and Cron.antt `CronService`, with durations in Cron/Duration.antt, both of
-- src/scheduler.ts. Workflow.antt is `WorkflowRuntime` of that file; Workflow/Looping.antt is
-- about the loop of `run`, Resuming.antt about one call, and Completing.antt about calls and
-- restarts. SessionQueue.antt is `SessionQueue` of src/runtime.ts for one session, whose backend
-- is the queue of MemoryQueue.antt: Counting.antt and Places.antt count where the turns are,
-- Drains.antt the drains, Waking.antt shows what takes a waiting turn, Ending.antt that the tasks
-- run out, Single.antt is about sessions with one state object, and Overlap.antt about how many
-- turns execute at a time. Reliability.antt is src/reliability: failure-loop.ts,
-- reasoning-reset.ts and confidence-model.ts. Responsiveness.antt is src/responsiveness.ts,
-- ContextTokens.antt src/max-context-tokens.ts, MemoryQueue.antt src/queue/in-memory-backend.ts,
-- RunStore.antt src/run-store.ts, AutonomyState.antt src/autonomy-state.ts, and ThreadStore.antt
-- src/thread-store.ts. Addresses.antt is the parsing and the ranges of addresses of
-- src/security.ts, Addresses/Targets.antt `validateBindAddress` and `resolveSafeFetchTarget`;
-- Ranges.antt and Fetching.antt are about them, and Spelling.antt and Refusing.antt about the
-- spellings of an address. Anomalies.antt is `AnomalyDetector` of that file,
-- with its triggers in Anomalies/Triggers.antt. Ingress.antt is `PolicyDecisionLogger`,
-- `evaluateIngressPolicy` and `AuthService` of src/security.ts.
-- Incidents.antt is `IncidentCommander` and `scoreInboundRisk` of src/security.ts. Gateway.antt
-- is the checks of `POST /rpc` in src/gateway.ts, which join the authorization, the incidents, the
-- rate limiter, the risk score and the log; Gateway/Admitting.antt is about who is admitted.
-- Gateway/Waiting.antt is `agent.wait` and `appendAssistantToThread` over the run store, with the
-- results in Waiting/Once.antt and the overlapping calls in Racing.antt. Gateway/Params.antt is the
-- parsing of parameters, with the messages in Params/Messages.antt. Config.antt is `merge` and
-- `mergeConfigPatch` of src/config.ts and the handler of `config.patch`; Config/Patching.antt is
-- about what a patch leaves alone, and Config/Profiles.antt the profiles and the checks of the
-- credentials, with the roots in Profiles/Roots.antt. Prompt.antt is `buildPromptMessages`,
-- `applyUserMessageFreshness` and `applySystemPromptBudget` of src/runtime.ts, with the notes of
-- the system prompt in Prompt/Notes.antt: Budget.antt, Privacy.antt and Birth.antt are about its
-- size, what it does not show, and the notes of a first turn, and Kinds.antt helps with the kinds
-- of notes. Reply.antt is the clean-up of replies of that file, with repeated endings and JSON
-- objects in Reply/Endings.antt, and lines and summaries in Summaries.antt. Memory.antt is
-- src/memory.ts (Memory/Trimming.antt its rolling window, Reading.antt what is read back),
-- Journal.antt src/decision-journal.ts (Journal/Chain.antt its chain of writes, Replay.antt what
-- is replayed), PluginHost.antt src/plugins/host.ts, FileQueue.antt src/queue/file-backend.ts
-- (FileQueue/Calls.antt about calls in a row, Races.antt about calls that overlap), and
-- IdleScheduler.antt src/reflection/idle-scheduler.ts.
-- Base.antt has what the modules
-- share: Boolean tests, lists on native numbers, and a JavaScript `Map` as the list of its entries
-- in insertion order. Examples.antt runs the operations.
--
-- Conventions.
-- A class is a record of its fields, a method a function from the record to the new record and the
-- answer. A camelCase name of the source is the same name in snake_case. Times are milliseconds as
-- natural numbers, also where the source keeps ISO texts, and a call runs at one instant. Ids that
-- `randomUUID` makes are arguments, and so are the cron-parser package, `toLowerCase`, `isIP` with
-- the look-up of names, and the local hour. A state file is a field whose writes succeed (whether
-- they do is an argument in Workflow.antt); what `JSON.parse` gives back is what was written. The
-- regular expressions of the exec tool are arguments. A text is a String where the source only
-- compares it, and the list of its UTF-16 code units where the source looks into it. Where the
-- source subtracts, the models compare sums, so that nothing stops at 0; `now - 1` of `isDue`
-- stops at 0, at the epoch only. The factors 0.5, 0.75 and 1.2 of the heartbeat are fractions.
-- `tick` of the cron service awaits the job that it runs, and other ticks may run meanwhile: its
-- loop's body is two steps, `begin` and `finish`, and a process is any sequence of such steps. The
-- session queue is cut at every `await` in the same way; what follows one is a task of an event
-- loop that runs its oldest task first. A workflow runs one call at a time. Every function is by
-- structural recursion; no fuel is used.
--
-- Not modelled: the turn of `AgentRuntime.scheduleTurn` itself (the calls of the model and of the
-- tools), most of the methods behind the gateway and of its pages, which hand their parameters to
-- the parts above, the default configuration and the configuration file, the model
-- adapters and providers, what the tools do once they run, and the stores of summaries and
-- experiences, which are I/O around texts, processes and the network. Also left out are the
-- emulation of commands on Windows, the redaction of src/security.ts, the tags and blocks that
-- regular expressions cut out of replies, and `agent.wait` with `block`.
pub mod Base
pub mod Capabilities
pub mod Approvals
pub mod Gate
pub mod ExecTool
pub mod ToolRouter
pub mod Window
pub mod RateLimit
pub mod Budget
pub mod Heartbeat
pub mod Cron
pub mod Reliability
pub mod Responsiveness
pub mod ContextTokens
pub mod MemoryQueue
pub mod SessionQueue
pub mod Workflow
pub mod RunStore
pub mod AutonomyState
pub mod ThreadStore
pub mod Addresses
pub mod Anomalies
pub mod Ingress
pub mod Incidents
pub mod Gateway
pub mod Config
pub mod Prompt
pub mod Reply
pub mod Memory
pub mod Journal
pub mod PluginHost
pub mod FileQueue
pub mod IdleScheduler
pub mod Examples
