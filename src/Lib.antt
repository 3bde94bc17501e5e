-- ===== src/Lib.antt =====
-- Verification of wotbot, an assistant for Web of Things devices: the Python server under
-- apps/wotbot/src/wotbot, and the pool of its code executor. Paths below are relative to that
-- directory, unless they start with apps/.
--
-- Parts and files
--   Base        shared names; Python's dict as an association list (Base/Dict), strings by
--               character (Base/Text), lists and Boolean tests.
--   Json        JSON values, `dict.get`, and Python's `==` on them.
--   Agent       agent/nodes.py: the prompt of the chat graph. Sanitize is
--               `_sanitize_message_sequence`, Units `_group_conversation_units`, Trim
--               `_fit_units_to_budget` and `_trim_conversation`. The nodes call Trim on the
--               conversation before each model call.
--   Runs        core/agent_runs.py: Interrupt is `_interrupted_turn_updates` and
--               `_finalize_interrupted_run`, Partial `_PartialAssistantText`, Fork
--               `fork_before_message`, Registry `RunRegistry` with its thread locks. The messages
--               are those of Agent/Messages.
--   Jobs        jobs/: Records has the tables of jobs/db.py and a session; Start, Reply, Cancel,
--               Finish and Stale are the transactions of jobs/stores/runs.py (`_try_start_job_run_sync`,
--               `_start_reply_job_run_sync`, `_cancel_active_run_sync`, `_finish_job_run_sync`,
--               `_mark_stale_running_runs_failed_sync`), Events is jobs/stores/run_events.py, and
--               Definitions jobs/stores/definitions.py with `_updated_resource_health` of
--               jobs/stores/base.py. Schedule is jobs/cron.py and jobs/time_schedule.py. Invariant
--               states when the tables are consistent, Lifecycle is the step relation of all these
--               transactions, and Outcomes describes them branch by branch and in sequence.
--   Threads     threads/store.py: the table of conversations, to which Jobs adds its hidden ones.
--               The run of a thread ends with `sync_after_run`.
--   Catalog     catalog/events/outbox.py: the queue of Thing events and its publish loop.
--   Discovery   discovery/refresh.py: Refresh is `merge_generated_document`.
--   Rdf         rdf/sparql_text.py: SparqlText is the lexer that masks comments and literals and the
--               search for a SERVICE clause.
--   AgentApi    agent_api/: Types and Requests are types.py and the fingerprints of store.py,
--               Interrupts is `validate_reply` of interrupts.py, Tables has the tables of models.py
--               with their constraints, Admit, Store and Paging are the transactions of `TaskStore`
--               in store.py. Consistent states when the tables agree, Lifecycle is the step relation
--               of the transactions, Retries follows one message through them.
--   VirtualThings  virtual_things/: Tables and Store are db.py and store.py, Dispatcher is
--               dispatcher.py with cache.py and the result of handler.py, Lifecycle the step
--               relation of the store's calls, Bindings what it writes and reads of a Thing. The
--               dispatcher reads a binding from the store, runs its handler and writes to the store
--               what the handler left, so an interaction is a function before the run and one after
--               it.
--   CodeExecutor   apps/code-executor/code_executor/session_pool.py, a program of its own that the
--               server calls: Pool is `SessionPool` with its bodies under the pool's lock, Calls the
--               step relation of `execute` with the execution locks, Table, Isolation and Owned what
--               every step keeps, Release how a lock becomes free.
--   Tests modules hold the runs at concrete inputs.
--
-- How the code is modelled
--   A method of a store is one function from the tables to a Result: the code takes a row lock,
--   or writes a few columns of one row, and commits once. So transactions follow one another, and
--   a raised error leaves the tables as they were. virtual_things/store.py takes no lock, so
--   `write_definition` has the row that was read as an argument of its own, and a step of a
--   definition may write over a newer row; the other calls there write no shared state that they
--   have read. The step relation of Jobs has the reports of runs for their own jobs; its
--   parameter `Late` names the jobs for which a run that is not active may be left waiting. Ids
--   that the code draws (`uuid4`) and times are arguments; times are microseconds. The JSON
--   columns hold JSON values, and `_json_safe` is the identity on them. Loops with an index or
--   over a shrinking text run on fuel: the length of the messages or of the query, of which every
--   round consumes at least one, so the fuel lasts. The
--   cron search and the publish loop have the bound of the source, CRON_LOOKAHEAD_MINUTES and the
--   size of the batch.
--
-- Parameters, for code outside of the repository or beside the modelled part: the count of tokens,
-- the predicate for summary messages and the removal of UI data in Agent/Trim; the printing of a
-- time, the text of a submitted record, the schedule that pydantic reads from a trigger column, the
-- next run of a cron schedule in Jobs; `pycron.is_now` and the time zones in Jobs/Schedule; the
-- word characters of `re` in Rdf; the publisher in Catalog; `str` on a JSON value that is no text
-- in Discovery; which tasks have ended in Runs; the hashes of fingerprints and tokens, the
-- validation by JSON schemas and the database's order of ids in AgentApi; the printing of numbers
-- and times and the handler itself, by its result, in VirtualThings; which processes are alive, the
-- pids of new ones and the replies of workers in CodeExecutor.
--
-- Not modelled: the queries of the stores of jobs and of virtual Things, the executor and the routes
-- of jobs, the event stream of core/agent_runs.py, the runners and servers of agent_api, a2a and mcp,
-- the rest of discovery and of the catalog, the builder, the capabilities and the handler script of
-- virtual Things, the agent's tools, panels, media, search and the indexer, and the workers and files
-- of the code executor: further components, or input and output around libraries; and the TypeScript
-- programs under apps.
pub mod Base
pub mod Json
pub mod Agent
pub mod Jobs
pub mod Rdf
pub mod Runs
pub mod Catalog
pub mod Threads
pub mod Discovery
pub mod AgentApi
pub mod VirtualThings
pub mod CodeExecutor
