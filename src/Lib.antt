-- ===== src/Lib.antt =====
-- Trawler sends simulated people through a web product; their sessions report findings, which are
-- grouped, replayed and judged. The control plane (apps/control-plane) keeps the runs and their
-- jobs in a database; runners (apps/runner) claim jobs and run them with the core package
-- (packages/core); what both exchange is described by packages/protocol.
--
-- The files and the code that they are about:
--   Base       lists, tables of rows (`UPDATE … SET … WHERE …`), Boolean tests; no code of its own.
--   Protocol   packages/protocol/src: kinds of jobs, findings and events (Types), people, goals and
--              turns (`turnsOf`, Turns), the groups of equal reports (`settleGroups`, Groups), the
--              story that is told of earlier turns (`trimStory`, Story).
--   Runs       apps/control-plane/src/runs/models.ts: steps of a turn and of a replay, and the
--              estimate of a price.
--   Core       packages/core/src: `runAgentLoop` with its budget (AgentLoop, of agent-loop.ts and
--              llm.ts); the tools of a session (Session, of session-tools.ts and role-session.ts);
--              questions that are asked again (Asks, of group.ts, triage.ts and `judge` of replay.ts);
--              where secrets stand in texts and how they are masked (Secrets, of secrets.ts);
--              what is kept of the plan for a pull request (`settleTurns`, PrPlan, of pr-plan.ts).
--   Mcp        apps/control-plane/src/mcp/limits.ts: what an MCP connection may start.
--   Ci         apps/ci/src: `waitForRun` (Wait) and `decide` (Decision).
--   Runner     apps/runner/src/worker.ts: the events of a job (`JobEvents`, Events), their way to the
--              queue (Link, with `ingestEvents`), requests and their attempts (Calls), and a round
--              of the worker (`workOnce`, `workLoop`, Work); and egress-proxy.ts beside it: a
--              session of the proxy of a job's browser (Proxy).
--   Queue      apps/control-plane/src/runs/queue.ts, with runs.ts, limits.ts, dismissals.ts and
--              report.ts beside it:
--     Rows     the rows of one run, in all tables that its transactions read or write;
--     Limits   `limitReached`, `limitStop`, `endRun`, `cancelRun` and the sweeps that stop runs;
--     Pause    `cancelLiveRuns`, `pauseProject`, `resumeProject`, on the live runs of a project;
--     Sweeps   `stopRunsPastLimits`, `stopUnclaimedRuns`, `stopRunsOfGoneClients`, on all runs;
--     Start    `startRun`, `refusalToStart`, `refusalToRun`, on the runs of a workspace;
--     Channel  `channelFor`, `peersOf`;
--     Findings what is read and marked among the findings (`frictionToCheck`, `markKnownNotBugs`);
--     Plan     `planNext`; Jobs: `completeJob`, `releaseJob`, `reapExpiredLeases`;
--     Events   `ingestEvents`; Calls: `llmCallFor`, `recordLlmUsage`, `forgetUnpaidFirstCall`;
--     Assign   what `claimOnce` tells a runner; Claim: `claimOnce`, `claimJob`;
--     Again    `judgeAgain`, `dismissFinding`, `undoDismissal`;
--     Steps    these transactions as a step relation on the rows of a run, and what it reaches.
--
-- State. Every transaction of the queue works on the rows of one run, which it locks, so a
-- transaction is a function on `Rows` and an interleaving is a sequence of steps. Besides the rows
-- it reads `Around`: the clock, the halt of the site, the pause of the project and the budget of
-- the workspace. `claimOnce` chooses among the runs of a list of entries. A refused transaction is
-- rolled back, and is a `refused` result. Identifiers, keys and texts are natural numbers; the
-- key of a finding, `persona:id`, is made by a parameter, since the database orders it. Money is in
-- micro-dollars, the unit of the columns, and times are in milliseconds; a difference of money that
-- is negative in the code, which only tests whether it is positive, is 0 here.
--
-- In Runner what the control plane answers, what a name resolves to and the times are given, and
-- requests interleave as steps. In Core and Ci the model, the browser, the service and the clock
-- are parameters: sequences of replies, polls and times; in PrPlan how a person is named, how an
-- instruction is clipped and what gives a pull request away are parameters, for they read texts.
-- A session is its state with what it gave to `emit`; what reaches the run of that is scrubbed,
-- by a scrubber that may learn secrets meanwhile (Session/Told). Money that others add to the
-- budget of a loop comes with its steps. Money there and in Mcp is in nano-dollars, so that the
-- code's tolerance of 1e-9 dollars is 1; the estimate in Runs is in millionths of a micro-dollar,
-- so that it needs no division.
--
-- Bounds. Loops over rows are structural; the five attempts of `claimJob` are a count. The loop of
-- an agent and the loop that polls a run take fuel, and return none when it runs out; they are
-- proved to return with more fuel than the cap of steps, and than the milliseconds to the deadline.
-- The reading of a channel takes fuel, and is proved to return with more fuel than the questions
-- before its deadline; the flush of a job's events with two more than it has events; and the pages
-- of a channel with one more than it has messages.
-- The search for a free id has as much fuel as there are used ids, which is proved to be enough.
--
-- Not modelled: the configuration and the jobs that a start gives to a run, the texts of
-- assignments and messages, the encryption of seeds and keys (a flag says whether they can be
-- read), row locks that are skipped, the negative positions of account
-- checks (a position counts from 0 here), what the model sees (prompts, the history of messages),
-- the tools that type into pages, and the parts that the comments above do not name: the web
-- interface, authentication, the control of the proxy's sessions, the browser.
pub mod Base
pub mod Ci
pub mod Core
pub mod Mcp
pub mod Protocol
pub mod Queue
pub mod Runner
pub mod Runs
