-- ===== src/Lib.antt =====
-- A model of Janus, a secrets manager in Go, and what makes it correct.
--
-- The server keeps encrypted secrets, decides who may do what with them, and records every action
-- in a hash-chained audit log. The parts modelled here, by the files of this library:
--
-- - Common: Booleans, options, lists, results and sorting that the parts share.
-- - Authz: the authorization engine. Authz/Actions is the permission matrix and the ranks of
--   internal/authz/actions.go (roleAllows, RoleAtLeast); Authz/Scope the scope rules of
--   internal/authz/resolve.go (tokenAllows, bindingApplies, grantApplies, userAllows);
--   Authz/Engine the decision Can of internal/authz/engine.go; Authz/Review the roles of
--   internal/authz/review.go and internal/authz/management.go (RoleFromBindings, BoundRole,
--   EffectiveRole, AllowedProjects); Authz/Effective the permission set of
--   internal/authz/effective.go. The binding, group and grant stores are functions that may fail.
--   The principal and its token scope come from internal/auth; the caller's API handlers are not
--   modelled.
-- - Audit: the audit log. Audit/Bytes and Audit/Encoding are what internal/audit/hash.go and
--   internal/audit/checkpoint.go feed to SHA-256 and HMAC; Audit/Chain is the walk of
--   internal/audit/verify.go; Audit/Log the tables of internal/store/audit.go and
--   internal/store/audit_checkpoint.go; Audit/Recorder the operations Record,
--   Verify and CreateCheckpoint, and Audit/Pruning the operation Prune, of internal/audit. SHA-256
--   and HMAC are parameters, and what is relied on of SHA-256 (32 bytes) is a hypothesis where it
--   is used. An operation runs alone, as the advisory lock of Append makes appends do; a failing
--   store call changes nothing.
-- - Resolve: config inheritance and secret references. Resolve/Parse is internal/resolve/parse.go
--   (parseSegments, parseRefBody), Resolve/Inherit internal/resolve/inherit.go (resolveMerged), and
--   Resolve/Expand internal/resolve/resolve.go (Resolve, ResolveKey, resolveKey, resolveRef). The
--   reader and the authorizer are parameters; in the program they decrypt the configs and ask Authz.
--   The walk up the bases has as much fuel as there are configs and one more, since it stops at the
--   first config that it sees again; resolveKey has one more than its depth cap of 32.
-- - Promote: promotion along a project's pipeline. Promote/State has the configs and the step check,
--   Promote/Diff the previews, Promote/Plan the changeset and its commit, all of
--   internal/promote/service.go, with SetSecrets of internal/secrets/secrets.go and the save of
--   internal/store/secrets.go on plaintext values: their encryption is not modelled.
--   Promote/Requests is the approval, rejection and cancellation of one request of
--   internal/promote/requests.go, on its row of internal/store/promotion_requests.go, as interleaved
--   calls of several callers; CreateRequest is not modelled. Promote/Requests/Calls is what one call
--   keeps.
-- - EditReq: the four-eyes approval of internal/editreq/service.go as interleaved calls of several
--   callers on one row of internal/store/config_edit_requests.go; a schedule says who moves and
--   whether the call is answered, loses its answer after it took effect, or is refused. The proposal's encryption is not modelled.
-- - Auth: login. Auth/Lockout is internal/auth/lockout.go on 64-bit patterns, Auth/Login
--   the Login and recordFailure of internal/auth/sessions.go with the row updates of
--   internal/store/users.go. What VerifyPassword and the check of the second factor answer is part
--   of an attempt. An unknown user is not modelled, since no row changes; nor is the rehash of a
--   password, nor the session that a success creates. Auth/SecondFactor is verifySecondFactor of
--   internal/auth/totp.go with VerifyTOTPStep of internal/crypto/totp.go and the row updates of
--   internal/store/totp.go, each attempt as one step, and Auth/SecondFactor/Enrolment the enrolment,
--   confirmation and removal of a factor; the HMACs and what is drawn at random are parameters.
-- - Transit: one key of the transit engine of internal/transit/lifecycle.go and
--   internal/transit/crypto_ops.go. The AEAD is a parameter, and that it opens what it seals is a
--   hypothesis where it is used. The text form of a ciphertext and signatures are not modelled.
-- - Rotation: internal/rotation/execute.go, RotateNow of internal/rotation/rotation.go and the row
--   updates of internal/store/rotation.go. An attempt makes one call after the other; a call may
--   fail, with its effect or without, and the process may crash between two calls. Both families of
--   rotators are modelled; what they do over the network is the call's effect on the target.
-- - Crypto: internal/crypto. Crypto is aead.go, the wrapping of keys.go and Unseal of keyring.go, with
--   the AEAD as a parameter; that it opens what it seals is a hypothesis. Crypto/Places is the
--   associated data of keys.go and sign.go. Crypto/Samples is an AEAD for the tests.
-- - ProjectKeys: the key-encryption key of a project, internal/projectkeys/service.go with
--   internal/store/project_kek_versions.go and internal/store/secrets_rewrap.go, the read path of
--   internal/secrets/secrets.go, and the blobs that internal/rotation, internal/secretsync and
--   internal/dynamic seal under that key. The number of batches of a rewrap is its fuel; one more
--   than there are values is enough, and with fewer it is a sweep that a crash has stopped. A
--   rewrap runs alone; the second attempt of a read that meets a concurrent rewrap is not modelled.
-- - MasterKeys: the master key, internal/masterkeys/service.go with RotateMaster of
--   internal/crypto/keyring.go and internal/store/masterkey.go; MasterKeys/Rekey is the ceremony of
--   a Shamir seal, with internal/crypto/unseal.go and Reseal of internal/crypto/shamir.go. The
--   vendored Shamir library and what `Reseal` of a cloud seal answers are parameters.
-- - Dynamic: one lease of a dynamic credential, internal/dynamic/issue.go, lease.go and scheduler.go
--   with internal/store/dynamic.go. Callers make one call to the store or the managed database at a
--   time, in any order; a call may fail, with its effect or without. The deletion of a dynamic role
--   and the templates of its statements are not modelled. Dynamic/Fits is what one call keeps.
-- - SecretSync: the mirroring of a config to GitHub, internal/secretsync with internal/store/sync.go.
--   SecretSync/Provider is Apply of internal/secretsync/github_provider.go, SecretSync/Fingerprint and
--   SecretSync/Reconcile internal/secretsync/reconcile.go with SyncNow and RunDue. A call over the
--   network is answered, loses its answer or is refused; the keyed hash is a parameter. The
--   destination stores names in upper case, as the design of the sync integrations says of GitHub.
-- - AuditShip: RunDue of internal/auditship/shipper.go with ListSince and Append of
--   internal/store/audit.go and internal/store/audit_ship.go, next to the pruning of the log,
--   with shipPruneCeiling of internal/api/audit_checkpoint_handlers.go. The encoding of a batch, its destinations and the status that is shown are not modelled.
--   AuditShip/Order has the facts on ascending lists.
-- - Nethard: which addresses an outbound connection may reach, internal/nethard/nethard.go with
--   internal/nethard/allowlist.go. An address is a number of 32 or 128 bits, and an entry of the
--   allowlist is already read as an address or a prefix; the dialers are not modelled.
--
-- Not modelled: the HTTP API, the command line, the SQL itself, the cryptographic primitives, the
-- providers that talk to other services, the SDKs, the Terraform provider and the web UI.
pub mod Common
pub mod Authz
pub mod Audit
pub mod Resolve
pub mod Promote
pub mod EditReq
pub mod Auth
pub mod Transit
pub mod Rotation
pub mod Crypto
pub mod ProjectKeys
pub mod MasterKeys
pub mod Dynamic
pub mod SecretSync
pub mod AuditShip
pub mod Nethard
