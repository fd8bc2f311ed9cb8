-- ===== src/Lib.antt =====
-- The background task handler: supervised tasks and the jobs that they finish, the batches that carry
-- results back to the thread that asked, the delivery attempts on these batches, the managed CLI
-- sessions over which they are made, and the deliveries of plugins. All of it is state in one SQLite
-- store, src/store.rs.
--
-- Parts, and how they interact
--   A finished job queues a batch for its source thread. The oldest open batch of a thread is its
--   head, and only the head is delivered. An adapter (the CLI or the app server) starts an attempt on
--   it, which is pending until the adapter accepts or refuses it. An accepted attempt is in cooldown
--   while its turn is tracked; the end of the turn closes the batch, or hands it over to a person
--   (manual resolution). A managed CLI session is bound to one thread; its epoch grows whenever its
--   proofs are lost, and an attempt carries the epoch that it was started in. The maintenance sweep
--   gives up attempts and closes batches whose time is over. A plugin delivery is a job that has
--   already ended, with its batch, under an idempotency key; a repeated key is answered with what it
--   made first. A supervised task has one job; it ends together with the job, and a task whose
--   supervisor is gone is ended by the recovery at the start of the daemon.
--
-- Files
--   Base and its children: shared names, Boolean tests, tables as lists with UPDATE, SELECT, MAX and
--     ORDER BY, results of calls, and what updates do to tables.
--   Models (Values, Rows, Requests): src/models.rs, and the text columns that `migrate` of
--     src/store.rs restricts by CHECK, as data types.
--   Store: the tables as a record, and the queries. Its children hold the calls of src/store.rs under
--     their names: Guards (`ensure_*`), Fences and Batches (updates that several calls share),
--     Attempts (`begin_*`), Outcomes (`accept_*`, `reject_*`, `abandon_*`, `expire_cli_observation`),
--     Observe (`observe_*`), Sweep (`sweep` and its parts), Sessions (`attach_or_create_*`,
--     `retire_*`), Notes (`note_*`, `invalidate_*`), Jobs (`submit_job`, `complete_job`, `fail_job`,
--     `fail_job_with_artifact`, `close_head`, `manualize_plugin_delivery`), Plugin with Queries,
--     Validation and Accepted (`enqueue_plugin_delivery*`, `replay_plugin_delivery_enqueue`,
--     `inspect_plugin_delivery` and their checks).
--   FsLayout: of src/fs_layout.rs, `validate_id_path_component` and `relative_artifact_payload_path`,
--     with the tests of a relative path that src/store.rs makes; Laws is about these paths.
--   Delivery: the properties. Edges says how one row may change; Moves lists the changes of the store
--     of which calls are made; Refine and its children take each call apart into moves; Invariant and
--     Preserve are about what holds between calls, Growth about rows along runs of moves. Calls is the
--     type of calls with histories, and Histories puts these together. Finality, Manual,
--     Fencing, Starting, Admission, Replays, Acceptance, Settlement, Endings, Terminal and Retirement
--     hold the properties, as do Queue and Service (the queue of a thread, as an abstract list) and
--     Idempotency, on Requests (the keys of plugin deliveries). Samples, Checks, CodexChecks,
--     StepChecks, Examples and PluginExamples are tests.
--   Tasks: the table of tasks of src/store.rs beside the store, with its listings. Calls holds the
--     calls on one task, Reasons the texts that a status is read back from (also the first line of
--     `build_task_delivery_summary` of src/daemon.rs), Recovery the calls
--     `fail_lost_tasks_matching_excluding_with` and `fail_lost_tasks_for_recovery_owners_excluding_with`.
--     Owners has the variants for all owners, none, or one. Histories, Invariant, Upkeep, Preserve and
--     Finality are about histories of these calls between calls of
--     the delivery core; Loop, Endings, Rounds, Ready, Start, Liveness and Failing about the recovery;
--     Settling and Failure about the failure of a task with its job, Undo about a pair of calls.
--     Examples holds tests.
--
-- How the code is read
--   An identifier, or another text that the code only compares, is a number: its place in the
--   bytewise order of texts, which ORDER BY uses; the empty text is 0. An argument whose text names no
--   value of its column is `none`, and refused where the code refuses it. Times, counts and revisions
--   are the non-negative values of an i64; `checked_add` fails above 2 ^ 63 - 1, and
--   `started_at <= now - timeout` is written as a sum. The SQL expressions `session_epoch + 1` and
--   `delivery_attempt_count + 1` have no bound in the model, as the code checks none there. A table is
--   a list in the order of insertion; unique keys are checked on insertion, as SQLite does. What
--   `new_id` returns, the texts of close reasons and of the recovery, and the bytes of a text (where the
--   code looks at them) are arguments. A call is one transaction: when it fails, the store is as it
--   was; the recovery of lost tasks makes several, and keeps what it did before an error. Loops over
--   selected rows are structural recursion on the rows, so there is no fuel; each SELECT of the sweep
--   takes 100 rows at most, a listing of tasks 500. The status of a task that ends is one of the five
--   that the callers pass.
--
-- Not modelled
--   The desktop calls and tables, artifact ingests and garbage collection of src/store.rs, with the
--   column task_log_gc_attempted_at of a task; files, sockets, processes and the command line
--   (src/daemon.rs, src/service.rs, src/cli.rs and others). The desktop calls write the tables of the
--   delivery core too (`note_desktop_arm` counts a delivery): what is said of histories is said of
--   histories of the modelled calls.
mod Base
pub mod FsLayout
pub mod Models
pub mod Store
pub mod Delivery
pub mod Tasks
