-- ===== src/Lib.antt =====
-- The control plane and the webhook queue of PostBase, a backend as a service that binds each
-- environment of a project to one provider per capability (auth, data, storage, functions, events).
--
-- Parts and files:
-- - Domain: the tables and enums of backend/src/postbase/domain/models.py and enums.py, as records
--   and data types with the source's names. Columns that no modelled operation reads are left out.
-- - Platform: what every handler uses. Platform/Errors has the exceptions as values, Platform/Exec the
--   actions on a session with early exit by an exception, Platform/Session the database session of
--   one request (tables as the session sees them, tables as committed, rows of other transactions),
--   Platform/Audit record_audit_event and record_transition_audit_event_once of
--   backend/src/postbase/platform/audit.py, Platform/Registry the table of provider adapters,
--   Platform/Idempotency backend/src/postbase/platform/idempotency.py with
--   _execute_idempotent_mutation of backend/src/postbase/control_plane/api.py, over a session of its
--   own: the records, and the other tables as one value that the handler changes.
-- - ControlPlane: backend/src/postbase/control_plane/service.py. ControlPlane/Required decides which
--   secret kinds a binding lacks; ControlPlane/Bindings has set_binding_status, its child Create
--   create_binding_version; ControlPlane/Secrets creates, rotates and revokes secrets;
--   ControlPlane/Switchovers creates switchover plans, its children Cutover, Phases and Execute are
--   execute_switchover_plan, and its child Rollback rollback_switchover_plan;
--   ControlPlane/Migrations detects and reconciles the drift of a schema migration;
--   ControlPlane/Lifecycle has the role checks and the life cycle of projects and environments;
--   ControlPlane/Quota the quota. Every check and write stands in the source's order.
-- - Events: backend/src/postbase/capabilities/events/webhook_jobs.py. Events/Jobs enqueues jobs and
--   adds dead letters, Events/Attempt is the body of the loop of process_due_webhook_jobs,
--   Events/Batch the choice of the jobs, the loop and the health signals, Events/Replay the replay of
--   dead letters, Events/Policy backend/src/postbase/capabilities/events/policy.py with the access
--   context of backend/src/postbase/platform/access.py. A webhook job refers to its channel by
--   number; the two parts share no state but the database.
-- - Base: names and lemmas that all files share.
--
-- Conventions. A handler of the control plane is a do block over Exec Session; a row object is
-- written through its primary key. A datetime is a number of seconds, and the readings of the
-- clock in one request are one number. A flush checks the two partial unique indexes and
-- the two unique constraints of bindings, secrets and their links. A rollback expires the row objects,
-- and the first read of one after it raises, as in SQLAlchemy's AsyncSession. The rows
-- that another transaction commits meanwhile are the field `raced`, which the checks of the
-- handler do not see. The execution of a switchover runs on the session and on the two row objects
-- that it changes; a write to one of them is a write to its row. Loops are structural recursion on
-- the list or the count that the source iterates, so no fuel is needed.
--
-- Not modelled: SQLAlchemy, PostgreSQL and FastAPI, of which only the behaviour named above is
-- used; deliver_webhook of webhook_delivery.py, which stands in for a transport and is an argument
-- of the batch, as are the adapters of the registry; encryption, hashing and slicing of a secret's
-- plain text, the check of a secret's name, the text of an exception and the hash of a request,
-- which are arguments; foreign keys and the other indexes; refreshes of row objects;
-- the expiry of the user's row object in _execute_idempotent_mutation, where the user is a number; the
-- rounded utilisation of a quota; the application of schema migrations, certification runs, the HTTP layer
-- but for _execute_idempotent_mutation, and the applications under backend/src/apps.
pub mod Base
pub mod Domain
pub mod Platform
pub mod ControlPlane
pub mod Events
