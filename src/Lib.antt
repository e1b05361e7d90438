-- ===== src/Lib.antt =====
-- Venya keeps secrets behind a server and lets executors use them. This library models the parts
-- of its core that decide who may come in and for how long, keep the secrets and share out the
-- recovery key, as functions on explicit states, and proves what they promise.
--
-- Lockout        packages/core/src/core/engine/rate_limiter.py: RateLimiter counts the failed
--                attempts of an account and locks it (record_failure, check, record_success, reset,
--                get_remaining_attempts, cleanup_expired). A dict of FailureRecord is the state.
-- SlidingWindow  packages/server/src/server/utils/rate_limiter.py: SlidingWindowRateLimiter admits
--                requests on several keys at once (check_and_consume, is_allowed, get_remaining,
--                get_reset_time, cleanup_expired). A dict of lists of stamps is the state.
-- Throttle       packages/server/src/server/middleware/rate_limit.py: RateLimitMiddleware counts
--                requests in fixed windows of a shared table and delays the break-glass route
--                after failures (dispatch).
-- Sessions       packages/core/src/core/iam/session_manager.py over the rows of models.py: the life
--                of a session from create_session over extend_session and refresh_token to
--                revoke_session and cleanup_expired, with the elevation tokens bound to it.
-- Enrollment     packages/core/src/core/iam/enrollment_manager.py over the rows of models.py: the
--                state machine of enrollment tokens, their limit for each user and their sweep.
-- Roles          packages/core/src/core/iam/role_manager.py over the rows of models.py: RoleManager
--                creates, updates and deletes roles (Roles), grants and removes memberships and
--                answers the guards of the admin roster (Roles/Members).
-- Secrets        packages/core/src/core/engine/core.py: Core keeps encrypted secrets behind the
--                visibility of roles (get, get_for_injection, put, delete, list), with the tables,
--                the key and the lockout as its state. It calls Lockout and Encryption, and shares
--                the rows of Roles.
-- Encryption     packages/core/src/core/engine/encryption.py: the wrap of data keys and the envelope
--                of a secret (encrypt_secret, decrypt_secret).
-- Shamir         packages/cli/src/venya_cli/shamir.py: the shares of a recovery secret (split,
--                combine) over the field of 256 elements. Shamir/Field is the interface of the
--                algebra, Shamir/Bytes fills it with the operations of the source, and
--                Shamir/Weights to Fitting prove interpolation over any such field.
-- Snapshot       packages/server/src/server/revocation_snapshot.py: the published population of
--                revoked credentials and the polls that are answered from it (publish_once,
--                read_populations, read_relay_populations).
-- Prelude        lists, tests and the dict that the other parts share.
--
-- Each part has a file with the definitions, under the names of the code, and beside it a folder
-- with its theorems and, in Tests, concrete runs. Roles uses the predicate is_user_active of
-- Sessions, and Secrets uses Lockout and Encryption, as the code does. Else the parts do not
-- call each other: the routes of the server, which are not modelled, use the limiters before the
-- managers, and the managers share a database in which a user is known by their status.
--
-- Time is a natural number of microseconds, and every reading of a clock is an argument, so that
-- a method that reads it twice takes two; a comparison with `now - d` is written as one with a
-- sum. Random tokens and bytes, SHA-256, the ciphers and the lowering of a name are arguments as
-- well. A lock, and a transaction of the database, make a call one step. A table is a list with
-- the newest row first, `first()` the first match; the theorems about tables suppose ids, and
-- for sessions tokens, that are unique (IsSound), which every call of the histories keeps. An
-- exception is a value beside the state at which it is raised, or in Shamir, Encryption, Secrets
-- and Snapshot an error result. No definition runs on fuel: all loops are over lists and dicts,
-- or run a fixed number of rounds.
--
-- Not modelled: logging, the messages of exceptions, the SQL layer and its migrations, the float
-- rounding of clocks, concurrency inside a call, the naps and retries of
-- revocation_snapshot_loop, and the parts of the program beyond these files; of the files named,
-- the mint of the KEK sentinel in encrypt, the erasure of the payload of split, the sorted
-- listing list_roles, the address that _get_client_ip reads off a request, and
-- _increment_counter, which dispatch does not use.
mod Prelude
pub mod Lockout
pub mod SlidingWindow
pub mod Sessions
pub mod Enrollment
pub mod Roles
pub mod Encryption
pub mod Secrets
pub mod Shamir
pub mod Snapshot
pub mod Throttle
