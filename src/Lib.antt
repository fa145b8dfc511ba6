-- ===== src/Lib.antt =====
-- The OpenAB control plane, and the controller that runs its pull request reviews.
--
-- The control plane seats chat bots in sessions. A session has a roster, perhaps a chair, a quorum and a
-- mode; a done-signal of a bot reaches the coordinator of that mode, which looks at the session and
-- answers with actions (relay, prompt, transition, close, change of chair). In a council the reviewers
-- report first, a quorum prompts the chair, and the chair's final text, which ends in a machine-readable
-- verdict trailer, closes the session. The GitHub pull request controller is a client of the control
-- plane: from the final messages of a closed session it reads the verdict and the findings again, checks
-- that they are about the commit it asked about, and queues the writes to GitHub; later it recomputes the
-- verdict when the author of the pull request judges a finding.
--
-- Files and the code they model:
--   Text               str methods of Rust on lists of code points; i64::to_string and str::parse::<i64>
--   Store              src/store.rs: SessionState, Session, Message; FinalMessages: the cap on the messages
--                      of a terminal event in close_session_with_result
--   Store/Audit        crates/controller-protocol/src/audit.rs; append_audit_event_locked of src/store.rs
--   Store/Database     the tables of the controllers in SCHEMA of src/store.rs
--   Store/Events       src/store.rs: enqueue_controller_event_locked and its callers,
--                      configure_controller_events, controller_event_audit; Leases: claim, complete, fail
--                      and prune
--   Store/Actions      src/store.rs: begin_controller_action; Finish: finish_controller_action,
--                      controller_session_for_trigger, controller_action_for_reconciliation
--   Store/Sessions     src/store.rs: set_state, advance_state, reopen_session and the setters of a session;
--                      Transitions: close_if_active, close_session_with_result; Create: create_session,
--                      create_session_superseding; Roster: the seats
--   Store/Installations  src/store.rs: the registrations with their tokens, grants and scopes
--   Store/Outbox       src/store.rs: the outbox, the reactions and done_voters
--   Session            src/session.rs, src/routing.rs
--   TurnFailure        src/turn_failure.rs
--   Council            src/plugins/council/mod.rs; Council/Verdict: src/plugins/council/verdict.rs and
--                      unfenced_lines of src/orchestrator.rs
--   Coordinator        src/coordinator.rs: Defs has Ctx, Action; Quorum the council's policy; Modes the
--                      trait's implementations, src/plugins/triage/mod.rs among them, and lookup
--   Orchestrator       src/orchestrator.rs: latest_settled, settled_result_span, is_done_signal
--   Review/Rows        crates/github-pr-controller/src/store.rs, the rows; the json! payloads of writes
--   Review/Verdict     crates/github-pr-controller/src/verdict.rs
--   Review/Closing     crates/github-pr-controller/src/closing.rs: Integrity, Bodies and Plan
--   Review/Deciding    crates/github-pr-controller/src/deciding.rs: Defs, Texts and Replies
--   Review/Dispatch    crates/github-pr-controller/src/lib.rs: dispatch_terminal up to its plan
--   Review/Planner     crates/github-pr-controller/src/planner.rs: presets and the seats of a round
--   Prelude            numbers, lists, options and lemmas that the parts share
--   Tests              inputs of the parsers and applications of the theorems
--
-- How the code is carried over:
--   - A function or method keeps its name; a function that the source writes as one body is cut where it
--     branches or loops (council_on_done_with_reviewer_rerequest_attempts is reviewer_step, then
--     quorum_actions_with_contract, then chair_step; plan_close is plan_ask, integrity_of,
--     plan_sha_integrity_failure and plan_round).
--   - The trait object Ctx is the record of the answers of its methods, since a coordinator is pure and
--     sees one state of the session.
--   - Text is a list of code points, so positions count characters where Rust counts bytes; every text is
--     cut only at positions that a search has returned, and `len` of an id counts UTF-8 bytes.
--   - A table of the database is the list of its rows in the order of their insertion; UPDATE, DELETE,
--     COUNT and ORDER BY are functions on lists (Prelude/Rows), and a unique index is the test that the
--     insert makes. A transaction is a function from the database to an Option of the database: none is
--     an error, and a denial returns the database as it was, for the transaction is dropped. Of the
--     services of the process, new_id, now_ms and serde_json::to_string are arguments.
--   - i64 values are ℤ; attempt counts, comment ids, quotas and the times of the controller tables,
--     which are not negative, are ℕ. No arithmetic of the modelled code leaves the range of i64, but for
--     the saturating additions, which keep their bound; parse_i64 refuses what does not fit.
--   - `expect` in plan_close is an Option; `?` is a do block.
--   - serde_json::from_str is the parameter from_str of Review/Verdict, for texts of any content.
--   - Loops are structural recursion; unfence_tables recurses on its lines with the number of lines
--     still to skip. Only the printing of a number n carries fuel, n + 1, which is more than its digits.
--
-- Not modelled: logging; the text of the SQL and the second backend in PostgreSQL; HTTP, WebSocket and GitHub calls; the orchestrator's
-- execution of the actions and its liveness rounds; what dispatch_terminal does with its plan, the controller's webhook handlers and, but for
-- the seats of a round, its planner; configuration; the wire types; the world controller.
pub mod Prelude
pub mod Text
pub mod Store
pub mod Session
pub mod TurnFailure
pub mod Council
pub mod Coordinator
pub mod Orchestrator
pub mod Review
pub mod Tests
