-- ===== src/Lib.antt =====
-- The agent platform: a Go service that runs one conversation agent per thread. A command is admitted
-- to the journal of its conversation (internal/journal), a worker claims its run and starts it with a
-- definition set (internal/definitions) and the settings of its tenant and user (internal/settings);
-- it activates journeys (internal/journeys), whose tools it calls through the journal
-- (internal/runtime), waits for replies and approvals, and finishes the run.
--
-- What models which part:
--   Prelude      shared: Boolean tests, lists, Go strings and maps, results, table rows.
--   Journal      internal/journal. The data types are those of store.go, interactions.go, operations.go
--                and owners.go, and a record per table of internal/journal/migrations.
--     Transactions   lockConversation, lockOwner, appendEvent; the transaction monad.
--     Operations     BindCall, supersede, and the writes of an attempt.
--     Begin          BeginAttempt (begin_attempt), EndAttempt (end_attempt).
--     Outcomes       markOperationsUnknown, disposePending, Included (include_commands).
--     Owners         Claim, Check (check_owner), Renew, interruptExpired.
--     Interactions   Interaction.Validate and ValidateReply.
--     Waits          Wait, recordedInteractionTTL, expireInteractions.
--     Admission      Admit, and Reap (reap_run, reap_runs).
--     Replies        reply, Continuation.
--     Scope          RecordRunScope (record_run_scope).
--     Sessions       Start, Finish (finish_run), FinishFailed, finish, the active journeys.
--     The other children hold proofs: Answers and Consumed (replies), Finality (runs that complete),
--     Inversion (what a success has passed), Hoare (what holds after one), Dispatch, Approvals and
--     Attempts (attempts of calls), Fencing and Renewals (claims), Steps (every call of the store, and
--     time, as a step relation), Held, Untouched, Used, Kept, Persists, Spent and Once (what is used up
--     stays so through all steps), Over, Ended, Admitted and Finished (so does a run that has ended), Recorded (scopes), Log, LogKept and LogAdmission (the event log);
--     Examples, ReplyExamples, FinishExamples and ScopeExamples run them.
--   Journeys     internal/journeys/journeys.go: the active set of a conversation.
--   Settings     internal/settings/settings.go: layers of settings, compiled and resolved.
--   Definitions  internal/definitions/selectors.go (Versions, Aliases), and of
--                internal/definitions/compile.go the tools of a journey (Tools), journeyPolicies and
--                checkPolicyConflicts (Policies); Compose, Order, Selected, Conflicts and OnePolicy hold
--                proofs.
--   Runtime      internal/runtime/tool_policy.go: guardedCall (guarded_call), in Calls and Attempted;
--                internal/runtime/dispatch.go: planCalls (plan_calls), in Planning and Planned;
--                internal/runtime/history.go: trimHistory (trim_history), in Trimming. Dropped, Steady,
--                Units, Links, Trimmed, Kept and TrimHistory hold proofs about the latter.
--   Catalog      internal/catalog: from the tools that an endpoint lists to those the model may call.
--     Descriptors    descriptors, journeys, tools and resolutions.
--     Selecting      Resolve's selectors: keyed_from (byKey), choose, select_ops, select_tags.
--     Resolving      Resolve's checks and its result (resolve).
--     Policies       CheckPolicies (check_policies).
--     Binding        open from the snapshot on (bind), Resolution, Tool, Tools and Call.
--     The other children hold proofs: Choosing, Offered and Founded (what holds of every choice), Groups,
--     Aliased and Names (keys and aliases), Resolved, Noted, Agreed and Stable (policies), Bound and
--     Shown (bindings); Examples runs them. A map of indexes is a list in the order of first choice;
--     what comes out of one is sorted, so that order does not show.
--   Cost         internal/cost/headers.go and access.go: the header gate (new_headers, access, apply).
--   Tenants      internal/tenantdir: directories and their setters, the allowlist and Lookup (look_up).
--
-- Conventions. Strings are lists of bytes. A Go error is a constructor of the part's error type; what
-- an error's text says is left out. The journal of one conversation is one state: every transaction
-- locks its conversation row first, so the transactions of a conversation come one after another, in
-- whatever order their callers run. A transaction is a function from a journal to an error, which keeps
-- nothing, or to a result and the next journal. A broken key or index, a row that is not there and a
-- stored value that does not decode are the error `database`, or what the caller makes of it. The clock
-- is the field `now` of the journal, in milliseconds, and stands still within a transaction; theorems
-- hold for every value of it. Keys that the schema makes unique across conversations are checked
-- within the conversation.
--
-- Code outside the repository is a parameter: the MCP session is an argument of Catalog.Binding.call, JSON, SHA-256 and the message library are the fields of
-- Journal.External, digests of settings an argument of Settings.resolve, the tool and everyone else who
-- acts on the store the fields of Runtime.Calls.Dispatcher, url.Parse an argument of
-- Tenants.Directory.normalize_url, the canonical form of header names one of Cost.Headers.apply. No
-- theorem assumes anything about them, except that a canonical form is its own canonical form.
-- Loops are recursion on the list they go over; only the loop of trim_history runs on fuel, one round
-- for each turn, which is enough because every round ends at least one turn.
--
-- Not modelled: servers, providers, telemetry, the wiring of commands, reading YAML and files, the
-- queries that only report (snapshots, the inbox), and the MCP transport. The limits that providers
-- report are not modelled.
pub mod Prelude
pub mod Journeys
pub mod Settings
pub mod Journal
pub mod Definitions
pub mod Runtime
pub mod Tenants
pub mod Catalog
pub mod Cost
