-- ===== src/Lib.antt =====
-- A verification library of Marcus: of the agent runtime in harness/, which keeps the runs of agents
-- in a database and executes their tool calls, and of the coding agent in marcus_code/, which drives
-- a model from the command line.
--
-- How the program works. A run is a row of `agent_runs`. Workers take runs from a queue, lease the row,
-- and step it: a step asks the model, plans which of its tool calls run now, executes each through the
-- tool executor, and writes the row by an UPDATE that is fenced by the row's version. A reaper
-- publishes the runs again whose lease has expired. The tool executor writes a row ahead of each call,
-- asks for approval where the tool's risk needs it, and recovers the calls that a crash interrupted.
--
-- Which file is about which part:
--   Run/Status        harness/db/enums.py and harness/runtime/state_machine.py
--   Run/Row           `AgentRun` of harness/db/models.py, and the fields that an UPDATE sets
--   Run/Lifecycle     what the state machine's table promises
--   Repository        harness/runtime/repository.py: `_versioned_update`, `checkpoint`, the leases.
--                     Cell has the effect of each operation on the row it writes and on the others,
--                     Fencing the abstract checkpoint, Lease the mutual exclusion of workers, and
--                     History the interleavings of any number of workers
--   Reaper            harness/runtime/reaper.py: `reap_stale_runs`, with Released, one step of its
--                     loop, Stale, what a pass does, and Race, how it meets a heartbeat; Approvals is
--                     `reap_expired_approvals`, Expiry what a pass does and how it meets a decision
--   Guardrails        harness/runtime/guardrails.py; Repeats has the guards over the history of calls,
--                     Streaks what they keep out
--   Tools, Executions harness/runtime/tools.py and the two tables of the executor
--   Approvals         the approval gate of harness/runtime/tool_executor.py
--   Executor          the rest of harness/runtime/tool_executor.py, `_execute_inner` split into `prepare`, which
--                     ends with the commit before a handler runs, and `invoke_and_finalize`. Prepare
--                     has the contract of the first half, Crash the attempts that a worker's death
--                     may cut at either commit, Attempted what one leaves behind, Once, Replay and
--                     Approval the theorems
--   Results           harness/runtime/result_pipeline.py; Cut what a digest keeps of a text
--   Engine            harness/runtime/engine.py. Plan is `_plan_tool_calls` and Planned what a plan
--                     promises; Meta and Disclosure are the engine's own tools, with their schemas of
--                     harness/runtime/native_tools.py and their handlers; State has the tables and
--                     the run that a step reads and writes, with harness/skills/usage.py and
--                     harness/llm/usage.py; Control and Calls are `_execute_single_tool_call`, Batch
--                     `_process_tool_calls`, Asking `_call_llm`, and Step `_execute_step_inner` and
--                     `run_until_blocked`. Saved is what a checkpoint comes to while no one else
--                     writes the row, Keeping, Kept and Counted what tool calls leave alone, Stepped,
--                     Ended, Acted and Loop what a step does to the run, Limits the end of the loop,
--                     Dropped the results of read-only calls, Evidence the guard of `finish`, and
--                     Locked the tools that are not unlocked
--   Gateway           harness/llm/gateway.py: Answer reads a response, Post is the loop of retries,
--                     Stream and Streaming are `complete_stream`, Request builds the requests, Client
--                     is `complete`; Providers and Adapt are harness/llm/providers.py. Bounded,
--                     Malformed and Answered are about the requests that are sent and what is raised,
--                     Quiet and Streamed about the same for streams, Reasoning, Grown and Fallback
--                     about what an adapter changes, Cut, Recut, Viewed and Roundtrip about an answer
--                     in chunks
--   Workers           harness/workers/main.py and its messages; Taken and Recovered are about a worker's death
--   Mcp               harness/mcp/tools.py and the reads of harness/mcp/registry.py
--   Llm               the messages of harness/llm/types.py; Paired is about the conversations that a
--                     model accepts
--   Context           harness/runtime/context.py; Paired is about the messages that it builds
--   Compaction        harness/runtime/compaction.py; Asked is about what it asks of the model
--   Skills            Registry is harness/skills/registry.py with the trigger of
--                     harness/db/models.py, Lifecycle, Sound and Safety the histories of a catalog;
--                     Selection is the part of harness/runtime/context.py that chooses a skill and
--                     lists the others
--   Intake            harness/runtime/quotas.py, `create_run` of the repository and the route of
--                     harness/api/routes/runs.py that calls them; Quota the limit that they keep
--   Urls              harness/runtime/url_validation.py; Public what a URL that passes leads to
--   Coding            marcus_code/runtime: Patterns, Contract, Coherent and Evidence are about
--                     task_contract.py, Modes about modes.py, Effort about effort_router.py and the
--                     budget of agent.py, Tracker about todo_tracker.py, Trimming and Trimmed about
--                     token_utils.py. Calls and Finish are about agent.py, which calls of a
--                     response it runs and how, and when a turn may end; Calls/Guarded, Calls/Planned
--                     and Finish/Verified have the theorems
--   Errors            the exceptions of the modelled code, as values
--   Prelude           shared helpers: tests, lists, decidable equality, JSON, texts
--   Tests             the theorems at concrete inputs
--
-- How state is modelled. A table is a list of rows, and an operation takes the tables it uses and
-- returns the new ones with its result. An UPDATE is atomic, as the database makes it; a caller's
-- in-memory copy of a row is an argument, so it may be stale. A concurrent history is a sequence of
-- such operations with arbitrary arguments. The key of a run, a UUID in the code, is a number, and a
-- timestamp is a number of microseconds. A table of executions has the newest row first. An exception
-- is an `err` of Errors.Result, or an outcome where the code returns one; the outcome of a tool call
-- has a field that says that an exception stands in its place. An exception ends what called it, and
-- what it leaves of an open session is rolled back.
--
-- Bounds. Python's integers have no width and the counters of a run only grow, so they are natural
-- numbers; where the code subtracts, the test is written with the term on the other side,
-- or the difference is one that the code itself keeps from falling below 0. A step is numbered
-- by an integer, since a summary has a negative number. The retries of a request are counted down. Every other
-- loop of the modelled code is over a list but the one of `run_until_blocked`, which runs on fuel: each round that leaves the run running
-- adds one to `current_step`, and the guard before a step stops the run at `max_steps`, so one round
-- more than the steps that are left is enough.
--
-- Parameters. What comes from elsewhere is an argument: the validation of a tool's arguments, the
-- truncation of its result, the clock, the text of an id and the value of an approval's status, which
-- a status that has been read as a plain text has not, are the record `Services` of Approvals; a
-- handler is a function from the number of calls so far to its result or error, so that nothing about
-- the outside world is assumed. Python's regular expressions and its `str` of a value are arguments of
-- the modules of Coding, and the part of an error before its first colon one of Guardrails/Repeats;
-- the JSON text of a value and the digits of a number are arguments of Results;
-- Python's `urlparse`, `getaddrinfo` and `ipaddress` those of Urls; `str.strip` and `len`, and whether the session has loaded a revision's skill, those of
-- Skills/Registry; `re.findall`, `str.lower` and the digits of a number the record `Words` of
-- Skills/Selection; orjson's `dumps`, `str` and `len` the record `Printing` of Compaction. The client
-- of tool servers is the record `McpClient`. The model is a function from the number of calls so far
-- and the messages to a response, an `LLMError` or another exception. What Gateway takes from orjson and texts is its record `Codec`, what its providers take from names
-- and URLs the record `Names`, and the server is a function from the number of requests before and
-- the payload. What Coding/Trimming takes
-- from orjson and `str` is its record `Reading`. All that the engine takes is the record `Deps` of
-- Engine/State, in which the clock is a function of the round of the loop.
--
-- The engine is modelled for one worker that no other process disturbs while it runs: what others may
-- do to its row in between is in Repository/History. The read-only calls of a step, which the code
-- starts together on one session, run in their order. What was written before an exception leaves the
-- engine is not followed further.
--
-- Not modelled: the other HTTP routes, the network client of tool servers and the discovery of their
-- tools, Slack, the scheduler, the broker between the workers, the
-- terminal interface and the native tools, which talk to other services or to the terminal. Of the
-- coding agent's loop the call of the model, the guards against repetition and the history are left
-- out, of skills the feedback and the statistics of their use, and of
-- the engine its metrics and the tool specs that go to the model.
pub mod Prelude
pub mod Errors
pub mod Run
pub mod Repository
pub mod Reaper
pub mod Gateway
pub mod Guardrails
pub mod Tools
pub mod Executions
pub mod Approvals
pub mod Executor
pub mod Results
pub mod Mcp
pub mod Urls
pub mod Llm
pub mod Context
pub mod Compaction
pub mod Skills
pub mod Intake
pub mod Coding
pub mod Engine
pub mod Workers
mod Tests
