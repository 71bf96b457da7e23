-- ===== src/Lib.antt =====
-- Verification of the license server and of the Python verifier SDK.
--
-- The server (Project-source/forge-server/app) issues licenses, activates and renews online ones on
-- forge-edge, revokes and deletes them, and publishes a signed list of revoked offline ones; the SDK
-- (verifier-sdk/python/forge_verifier) is built into a product and decides whether it is unlocked. They
-- meet in one token format, `<base64url(payload)>.<base64url(signature)>`.
--
-- Prelude         shared names: tests, lists as tables, equality, error codes, texts as code points.
-- Models          the rows of app/models/*.py.
-- World           the tables of a session and the committed ones, handlers as state passing with
--                 errors, and a request as a session that is rolled back at its end (app/db/session.py);
--                 World/Triples has pre- and postconditions of handlers.
-- Audit           AuditService of app/services/audit_service.py.
-- Licensing       app/licensing/forge_file.py, verify_ed25519 of app/core/crypto.py, and _token.py of the
--                 SDK: Base64 and Token, each with its laws. Envelope: the encryption of secrets at
--                 rest of app/core/crypto.py.
-- Sdk             verifier.py (Sdk/Verifier), online.py (Sdk/Online) and fingerprint.py (Sdk/Fingerprint) of
--                 the SDK; Sdk/Facade is the class of __init__.py, keys.py and cli.py; Sdk/Host is what they
--                 read of the host.
-- Services        Keys: app/licensing/keys.py. Leases and Edge, with Match, Seats and Validate:
--                 app/services/edge.py; Edge/Routes: app/api/edge/v1/routes.py, with its rate limits.
--                 Worker: app/worker.py. Crl: app/services/crl.py. Issuance: app/services/issuance.py and
--                 app/licensing/payload.py. Licenses: revoke of app/services/issuance.py and
--                 delete_license of app/api/admin/v1/licenses.py. Repository: lists and counts of
--                 app/repositories/base.py and the pages of the endpoints. Passwords:
--                 app/core/security.py. Users: app/api/admin/v1/users.py, whose requests in any order are
--                 Users/Requests.
-- Admin           Permissions: app/permissions/registry.py and roles.py. Sessions:
--                 app/services/session_service.py, and its runs. Limits: app/services/ratelimit.py, and the
--                 hits of a window. Access: app/api/deps.py and app/permissions/deps.py. Auth:
--                 app/services/auth_service.py; Auth/Reset has its lockout and password reset, Auth/Routes
--                 is app/api/admin/v1/auth.py. Profile: me.py there. Catalog: products.py and customers.py.
--                 Alerts: clone_alerts.py. Licenses: licenses.py, crl.py and settings.py. Bootstrap:
--                 app/cli/__init__.py. Errors: app/core/errors.py.
-- Adapters        Email: the failover of app/adapters/email/base.py. Storage: the paged list of
--                 app/adapters/object_storage/base.py. Both with the choice of an adapter.
-- Deployment      an issued license in the SDK, and the same license after its revocation.
-- Tests           concrete tables, codecs and requests on which the theorems are run.
--
-- Handlers are functions of the world, and what a request draws (clock readings, random tokens, keys
-- of new rows, the replies of the seat lock) are arguments. Instants are microseconds, but seconds in
-- sessions, limits and logins; keys of rows are numbers. A raised error leaves the session as it was
-- at that point, and only `commit` changes the committed tables. Loops are structural recursion; the
-- lock is tried fifty times, as in the source, and the paged listing takes as fuel a number of
-- replies, of which as many as there are pages are enough.
--
-- Requests on the admin API, sessions and limits share one store, which is the cache of the world.
-- Redis is a record of operations (SessionStore, Counters, ResetTokens), with its documented laws on
-- keys, expiry, sets and counters as a record of hypotheses; Tests/Redis is a store that has the laws.
--
-- Other parameters, with what is used of them as hypotheses: the JSON codec, Ed25519, SHA-256,
-- AES-GCM, Argon2, TOTP, calendar arithmetic, `uuid`, ISO times, the lease cache, the S3 client, the
-- host, and the HTTP exchange of the online client. Bodies of requests are taken as the schemas left
-- them.
--
-- Not modelled: the interleaving of two activations of one license (the seat lock is released before the
-- commit), the list of the audit log, the clients of databases, mail, storage and search,
-- migrations, settings, logging, the front end, and the SDKs in other languages.
pub mod Prelude
pub mod Models
pub mod Licensing
pub mod Sdk
pub mod World
pub mod Audit
pub mod Services
pub mod Admin
pub mod Adapters
pub mod Deployment
mod Tests
