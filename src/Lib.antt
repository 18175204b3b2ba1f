-- ===== src/Lib.antt =====
-- openedx-webhook-relay: a Django plugin of the Open edX platform that delivers platform events to
-- registered webhook endpoints, signed, filtered and with an audit trail.
--
-- The parts of the program, and the modules that model them:
--   * openedx_webhook_relay/receivers.py, `_process_event`: an event is turned into a payload and
--     one Celery task per listening endpoint. Receivers.antt.
--   * openedx_webhook_relay/serializers.py: event objects to JSON values. Serializers.antt. An
--     object is a node of a graph, given by a function that shows what the code sees of it, so that
--     cycles are possible; the recursion is on the 16 levels that the depth limit leaves.
--   * openedx_webhook_relay/tasks.py: `deliver_webhook` (Tasks/Deliver.antt) with
--     `_shape_and_check` (Tasks/Shape.antt), `_backoff_seconds` (Tasks/Backoff.antt),
--     `_record_attempt` (Tasks/Record.antt) and `_fail_or_retry` (Tasks/Deliver.antt). A run takes
--     the request, the world (the two tables, what has been emitted, what has been posted) and the
--     moment (the times at which it reads the clock, and what the receiver answers) and gives its
--     ending (it returns, it asks for a retry, it raises) with the world after it. The other
--     children hold the proofs: of one run (Audit, Configs, Runs, Trail, Privacy, Signed,
--     Isolation, Closing, Accepted, Registered, Carried), of what it writes (Writes) and of how it
--     moves the circuit (Moves, LostTrial), of the runs of one task (Retries, Recovery) and of the
--     runs of many (Failures, Outage).
--   * openedx_webhook_relay/security.py: the payload filters, the passing check, signing and
--     serialization. Security.antt and its children; Json.antt has the values, Json/Dict.antt the
--     dictionaries in insertion order, Json/Paths.antt the lookup by which the theorems speak of
--     what stands in a payload, Json/Dumps.antt the text of `json.dumps`, with the order of keys
--     (Order) and the escapes (Ascii) in its children. The nested dictionaries that the filters
--     share between payload and result are copied here: each write through such a sharing writes
--     the value that stands there. A denylist's deletions also reach the task's argument, which a
--     retry carries on: Security/Denylist/Carried.antt follows them for an endpoint without an
--     allowlist (Tasks/Carried.antt); the theorems on chains of runs are about any payload at each
--     run.
--   * openedx_webhook_relay/models.py: the endpoint and the audit row (Models.antt), `clean`
--     (Models/Validation.antt) and the circuit breaker (Models/Circuit.antt). A method of the
--     breaker takes the instance that was loaded before and the rows as they are now, so that the
--     races between workers are sequences of calls. Models/Circuit/Breaker.antt has the three-state
--     machine of docs/decisions/0007-circuit-breaker.rst, Updates.antt what every update of a row keeps,
--     Columns.antt the columns that no update touches, Consistent.antt the states a row can be in.
--   * openedx_webhook_relay/secrets_backend.py: Secrets.antt and its children Documented and Stored.
--     openedx_webhook_relay/metrics.py: Metrics.antt. openedx_webhook_relay/retention.py:
--     Retention.antt.
--   * openedx_webhook_relay/fields.py: the encrypted column. Encryption.antt.
--   * openedx_webhook_relay/management/commands: rotate_encryption_key.py (Rotation/Keys.antt),
--     rotate_signing_secret.py (Rotation/Secret.antt), redeliver_failed_webhooks.py
--     (Redeliver.antt), purge_old_delivery_attempts.py (Retention/Command.antt).
--   * openedx_webhook_relay/admin.py: the endpoint's form, `save_model` and the requeueing action.
--     Admin.antt. Its displays: Admin/Display.antt, with the labels of Models/Labels.antt, and
--     Encryption/Mask.antt for the secrets.
--   * openedx_webhook_relay/checks.py: Checks.antt. openedx_webhook_relay/apps.py, the receivers
--     that it registers for the signals: Receivers/Dispatch.antt.
--     openedx_webhook_relay/settings/common.py: Settings/Plugin.antt.
--     openedx_webhook_relay/logging_utils.py: Logging.antt.
--   * openedx_webhook_relay/migrations: what the two migrations do to the rows of the tables.
--     Migrations.antt. The default of a new column is evaluated once for all rows, as Django does.
-- System.antt puts the parts together: the two tables, the signals and Celery's queue, on which a
-- step is a whole operation (an event, a run of a queued task, a purge, a requeue, a redelivery, an
-- edit, a rotation, a deletion, a new endpoint), in any order. Two runs do not interleave in a
-- step; the races inside one are those of Models/Circuit/Race.antt. A queued payload is a
-- dictionary, as all that the code enqueues from an event or a row are; the value of a payload file
-- that is none is not enqueued in this model.
--
-- Base.antt has the shared names, with Python's text operations (Base/Text.antt) and integers
-- (Base/Int.antt); Settings.antt the Django settings; Examples.antt and Witness.antt concrete
-- values and runs.
--
-- Bounds and fuel: times are microseconds in natural numbers; a purge's cutoff is an integer. Only
-- the decimal text of a number uses fuel, its value plus one, which is enough since each step
-- divides it by ten. The number of runs of a task is proved bounded, over any list of worlds.
--
-- Parameters: the HMAC and the hash with their hexadecimal texts, the text of a float, AWS's
-- client, Fernet, statsd's client, `attrs.asdict`, UUIDs, the attributes of a log record and `str`,
-- and the receiver's replies. Where a theorem needs something of one of them, it is a hypothesis.
--
-- Not modelled: the options of the admin's lists and its fieldsets, which lines are logged,
-- `ready()` and packaging, the settings of the test suite, scripts, the printing of the rotation
-- and redelivery commands, the models' Meta and indexes, the text of an audit row, and the
-- database's own failures.
pub mod Base
pub mod Json
pub mod Security
pub mod Settings
pub mod Models
pub mod Secrets
pub mod Metrics
pub mod Tasks
pub mod Encryption
pub mod Rotation
pub mod Retention
pub mod Redeliver
pub mod Receivers
pub mod Serializers
pub mod Admin
pub mod Checks
pub mod Migrations
pub mod Logging
pub mod System
pub mod Examples
pub mod Witness
