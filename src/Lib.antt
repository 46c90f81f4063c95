-- ===== src/Lib.antt =====
-- deepkeel is a durable agent runtime in Python (src/deepkeel of the repository). A run is a conversation
-- with a model that calls tools, spends budgets and may be interrupted and taken up again by another
-- worker. This library models the parts that make a run durable and exclusive, and what the runtime
-- accounts on the way:
--
--   Base            what the parts share: tests on numbers and strings, results that may be an error,
--                   code that writes before it raises (Exec), Python's integers, dict and str methods
--   Scope           src/deepkeel/scope.py: whose a run is, and which keys it is stored under
--   StateStore      src/deepkeel/state_store.py: the reducer RunAggregate.apply (Aggregate), the in-memory
--                   store's state and writes (Memory), commit_scoped and commit (Commit), loading and
--                   listing (Queries)
--   Leases          src/deepkeel/leases.py: the in-memory lease store (Store) and the guard that
--                   renews a lease from a thread (Guard)
--   EventJournal    src/deepkeel/event_journal.py: the in-memory journal with replay cursors (Journal)
--   Budgets         src/deepkeel/budget.py: the in-memory ledger and the preview of a request (Ledger)
--   Planning        src/deepkeel/planning: plans (Contracts, contracts.py), which steps run next (Scheduler,
--                   scheduler.py), revising a plan (Validator, validator.py), its dependency check
--                   (Dependencies) and the whole of validate (Validation)
--   ModelHealth     src/deepkeel/model_health.py: the circuit breaker of a model binding (Store)
--   ModelInvocations  src/deepkeel/model_invocations.py: the claims and outcomes of provider calls (Store)
--   ModelRouting    src/deepkeel/model_routing.py: which model role takes a step
--   Policy          src/deepkeel/policy.py: the default engine and the ordered rules
--   WorkflowPolicy  src/deepkeel/workflow_policy.py: whether a workflow skill may end
--   Guardrails      src/deepkeel/guardrails.py: the decisions about guardrails (Guardrails) and the runner
--                   with its store of decisions (Runner)
--   ToolRegistry    src/deepkeel/tool_registry.py: the tools by their names
--
-- A worker claims a run's lease; the lease's token and generation go with each mutation to the state
-- store as its fence, which the store compares with the last fence that it has seen. Events go to the
-- journal. The three stores key a run by the scope's storage_key, (tenant, (namespace, user)), and the
-- run's id.
--
-- Each store holds a lock over an operation, so an operation is one step: a function from the store to
-- a result and a store. What a store goes through is a list of such steps with any arguments, by any
-- workers, with the failing ones among it; the clock, the new token of a claim (a uuid in the source)
-- and what the failure injector raises are arguments of each step. An operation that writes before it
-- raises (commit_scoped) is written in the Exec monad, which keeps the writes of a failed run, so that
-- the restoring of the old state is a part of the model and not of the monad. A Python exception is
-- `err`; its message is left out, its kind and the names in it are not. Values of type Any (payloads and
-- checkpoint states) are a type parameter, with the operations that the code applies to them (truth and
-- str) as an instance `Objects`. A dict is a list of entries in insertion order (Base.Dict). A
-- datetime is a number of microseconds, and a ttl of the leases is given in microseconds too. Amounts of
-- the budget are whole multiples of a unit that the caller chooses; the source has floats, so rounding
-- is not modelled. str.strip takes all of Python's white space, str.lower the ASCII letters only.
--
-- The operations have no loops but those over a list, and the `while` loop of the plan's dependency check
-- (visit_ready). It runs on as much fuel as the plan has steps, and is proved never to run out of it. `read_pages` is the reader of the
-- journal's documented use (ask for the events after the last one seen, until none is left); it runs on
-- fuel, and as many rounds as the run has events are enough.
--
-- Not modelled: the graph runtime, the model gateway and its providers, the tool executor, contexts, the
-- coordinators of the guardrails, skills, subagents, the adapters for Postgres, MCP and A2A, and telemetry; of the
-- leases the asynchronous guard, which takes the steps of the modelled one with awaits; of planning the
-- runtime that drives a plan.
pub mod Base
pub mod Scope
pub mod StateStore
pub mod Leases
pub mod EventJournal
pub mod Budgets
pub mod Planning
pub mod ModelHealth
pub mod ToolRegistry
pub mod ModelInvocations
pub mod ModelRouting
pub mod Policy
pub mod WorkflowPolicy
pub mod Guardrails
