-- ===== src/Lib.antt =====
-- A model of the escalation proxy (escalation-proxy/app), a service between workload teams and the
-- platform team's SRE agent. A caller with an application token asks for an investigation; the
-- proxy admits it by the caller's policy and quota, starts a thread on the platform agent, and lets
-- the caller poll a status and a summary that tells the verdict and nothing else.
--
-- The parts, with the code that each file is about:
--   Registry   escalation-proxy/app/investigation_registry.py, `InvestigationRegistry`. The state
--              is the record `Registry` (`_registry` as an association list in insertion order,
--              with distinct ids, and `_workload_investigations`). A method that takes the lock is
--              one function from its arguments, its clock readings and the state to its result and
--              the state: Registry/Reads (lookups, counts, cleanup), Registry/Admission (reserve,
--              finalize, release, create), Registry/Lifecycle (complete, findings metadata, polls),
--              Registry/Sweeps (claims and the uncertainty sweep). The other files of Registry hold
--              its theorems: Quota, Replay, Ownership, Polls, Retention, Sweeping and Leases, and,
--              over the sequences of calls of Invariant, Preservation, Traces and Terminal.
--   Table      escalation-proxy/app/investigation_registry.py, `TableStorageInvestigationRegistry`:
--              Table/Entity (entities, ETags, `_to_entity`, `_from_entity`, the errors),
--              Table/Client (the calls of the table client, whose state is an arbitrary type,
--              conditional writes and their rounds), Table/Counter (the quota counter rows),
--              Table/Reads, Table/Admission (the reservation's transaction and what follows its
--              errors, finalize, release), Table/Lifecycle (complete, findings metadata, polls),
--              Table/Sweeps (claims, uncertainty sweep, cleanup, and reserve and create, which
--              begin with it), Table/Backend (the choice of a registry). Table/Laws says what the
--              table service does for a client that is the only one, Table/Represents when a table
--              holds the records of an in-memory registry, Table/Calls which calls are made of
--              both. Theorems: RoundTrip; Stored, Effects, Rounds and Decrement (single writes and
--              loops); Agreement, Finding, Polling, Polled, Updating, Recorded, Ended, Completion
--              and Completed (one method each) up to Refinement; Slots, Keys, Recount, Reserved,
--              Keyed and Conflicts.
--   Policy     escalation-proxy/app/caller_policy.py. Policy/Store (get, authorize,
--              authorize_resource_group), Policy/Groups (the pattern of resource group ids),
--              Policy/Loading (from_json, over the JSON values of Policy/Json), Policy/Refresh
--              (`RefreshingCallerPolicyStore`); theorems in
--              GroupIds, Access, Normal, Loaded, Confirmed and Freshness.
--   Platform   escalation-proxy/app/platform_client.py. Platform/Breaker (the circuit breaker),
--              Platform/Request (`_platform_request`); theorems in Retries, Circuit and Wedged.
--   Authorization  escalation-proxy/app/authorization.py. Tokens, Claims and Wiring; theorems in
--              Accepted.
--   Output     escalation-proxy/app/output_validation.py. Scoring, Selection and Finalized;
--              theorems in Ranking and Preferred.
--   Service    escalation-proxy/app/investigation_service.py. Interfaces has its protocols as
--              records of operations on an arbitrary store. Request (checks, message and answers)
--              and Create have create_investigation, Fetch fetch_investigation_status_once, Poll
--              get_status, Summary get_summary, Responses the two v1 responses, all as functions of
--              those operations; Memory fills the registry's record with the functions of Registry.
--              Theorems in Admission, Slots, Held, Once, Calls, Waiting and Disclosure.
--   App        escalation-proxy/app/main.py and mcp_transport.py. BodyLimit
--              (`RequestBodyLimitMiddleware`), Problems (`versioned_problem_details`), Mcp
--              (`mcp_handler`), Readiness (the readiness probe), Reconciliation (a round of each
--              background task), Endpoints, and Transport (the MCP transport and its tools), over
--              records of the calls that they make; Rounds fills that of the reconciliation with
--              the functions of Registry. Theorems in Bodies, Disclosed, Gate, Ready, Callers,
--              Refused, Completing and Finished.
--   Http       escalation-proxy/app/contracts.py, the exceptions that become HTTP answers.
--   Base       numbers, texts, lists, association lists and results that the others share.
--   The files Tests apply theorems to concrete states and calls, which the files Samples hold.
--
-- What stands outside the code is an argument: the clock's readings, the values of `uuid4`, the
-- SHA-256 digest, the signing key's look-up and `jwt.decode`, Pydantic's validation of the report, Python's `json.loads`, `str`
-- and `int`, the HTTP client, the table service and the configuration service. Where a service
-- method waits for an operation, the other tasks may change the store: that is the argument
-- `others`, one function for each wait.
--
-- Numbers: a time is a natural number of clock units, in place of a float; the code's `now - last <
-- n` is written `now < last + n`, which is the same also where the clock runs backwards. Python's
-- integers are unbounded, so nothing wraps. Upper and lower case are those of the ASCII letters.
--
-- Loops recurse on the list or the number that they run over. The only fuel is that of the wait in
-- `get_status`: one round more than the units of the wait is shown to be enough. The rounds of the
-- table registry's loops are those of the code, three, after which it raises an error.
--
-- What a method of the registry raises is, for the service, a `ValueError` as the in-memory registry has
-- them or an exception that it does not catch, as those of the table registry and its service,
-- which the caller sees as a 500.
--
-- Not modelled: the creation of the table client; the text of the queries' filters; the validation
-- of the responses by Pydantic; the redaction expressions and the Markdown parser of the output
-- validation; the wiring of main.py and mcp_transport.py to FastAPI and FastMCP, and the semaphores
-- that bound the calls at a time; the cancellation of the background tasks; the telemetry and the
-- log events; the text of error details.
pub mod Base
pub mod Registry
pub mod Table
pub mod Policy
pub mod Platform
pub mod Http
pub mod Authorization
pub mod Output
pub mod Service
pub mod App
