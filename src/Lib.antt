-- ===== src/Lib.antt =====
-- MinePanel backend: a NestJS server that runs Minecraft servers as Docker containers for accounts
-- with roles, over a Postgres database. This library models its parts in src/ of the repository and
-- proves what makes them correct.
--
-- How the parts interact. A request passes the guards, a controller extracts the caller, and a
-- service runs SQL statements and Docker calls one after the other. The services share the tables,
-- and each keeps its counters of failures in memory. Other requests run between any two awaited
-- calls; what keeps the rows right is that each change of a status is one conditional UPDATE, that
-- admissions hold an advisory lock, and that failures settle the row.
--
-- What models what:
--   Schema, Schema/Enums      src/db/schema.ts. The tables are lists of records.
--   Http                      the exceptions of @nestjs/common as values, and results.
--   Daemon                    what src/docker/docker.service.ts sees of Dockerode and statfs.
--   Effects                   handlers as functions of a world (tables, memory, number of calls) into
--                             a result and a world, with do blocks. `Env` holds all that the code
--                             does not compute: other requests (`interfere`, `interfere_locked` while
--                             this request holds an advisory lock, `interfere_memory`), clock,
--                             UUIDs, random texts, bcrypt, configuration, Number(text),
--                             path.resolve and the daemon. Theorems hold for every Env, or name what they ask of it.
--   Memory                    what src/auth/ keeps between requests: the failures of sign-ins and of
--                             second factors.
--   Effects/Inversion         what a handler that returned did on its way.
--   Effects/Trace             the writes of a handler as a sequence of steps of a relation.
--   Effects/Triples           pre- and postconditions on the tables, for success and for throws.
--   Text, Text/Digits, Text/Suffix
--                             trim, split, the character classes, the digits of a number, and texts
--                             with suffixes of one length.
--   Docker/...                src/docker/docker.service.ts: Errors (handleDockerError and the tests
--                             on thrown values), Image and Config (readDockerConfig), Container
--                             (createContainer's config), Service (the calls).
--   Servers/...               src/servers/servers.service.ts: Admission (resource configuration and
--                             checks), Statements (the SQL and the visibility predicate), Shared,
--                             Create, Run (start, stop, restart), Delete; Controller is
--                             src/servers/servers.controller.ts. Graph and the files below it state
--                             the documented state machine and refine the handlers to it; Memory
--                             bounds the admitted memory; Held, Alone and Settles follow one row.
--                             Reconcile (onModuleInit, reconcileRow), with Steps (what is written)
--                             and Outage (an unreachable daemon).
--   Access, Access/...        src/servers/server-access.service.ts and server-access.controller.ts:
--                             Statements (the SQL), Controller (the routes), Steps, Writes, Traces
--                             and Reach (what is written), Sight, Branches, Outcome and Visibility
--                             (who sees the server afterwards).
--   Admin, Admin/...          src/admin/admin.service.ts: Statements, Accounts (status, role, reset,
--                             second factor), Counts and LastAdmin (an administrator remains).
--   Users/...                 src/users/: Public (public-user.ts), Statements (the SQL of accounts and
--                             sessions), Service (users.service.ts); Conditional, Credentials and
--                             PasswordChange are proofs.
--   Auth/Libraries            what src/auth/ takes from elsewhere, as a parameter: JSON Web Tokens,
--                             bcrypt's comparison, SHA-256, the cipher, otplib, JSON, Google's library.
--   Auth/Sessions, Auth/Login, Auth/Account, Auth/TwoFactor, Auth/RefreshToken
--                             src/auth/auth.service.ts: sessions and their rotation; registration and
--                             sign-in, with Login/SecondFactor; profile, password and set-up of the
--                             second factor; its failures and lock; the claims of refresh tokens.
--                             Grants, SecondGrants, SecondCodes, SingleUse, Admits, BackupCodes and
--                             Lockout are proofs.
--   Auth/RefreshTokenTtl      src/auth/refresh-token-ttl.ts. RoundTrip is a proof.
--   Auth/Identity             src/auth/identity.service.ts. Attempts and Inserted are proofs.
--   Auth/Google               src/auth/google-token.service.ts and google-oauth.service.ts. Username
--                             is a proof.
--   Auth/Dto, Auth/Cookies, Auth/Controller
--                             src/auth/dto/, auth-cookies.ts and auth.controller.ts.
--   Guards/PreAuth            src/auth/guards/pre-auth.guard.ts. Kinds is about the kinds of token.
--   Guards/Csrf               src/common/guards/csrf-origin.guard.ts and src/common/cors-origin.ts.
--                             Admission says who passes.
--   Guards/Roles              src/auth/guards/roles.guard.ts.
--   Guards/Permissions        src/auth/guards/permissions.guard.ts. Grants says who passes.
--   Guards/Jwt                src/auth/guards/jwt-auth.guard.ts, over Auth/AccessToken, which is
--                             src/auth/access-token.service.ts. The JWT library is a parameter, the
--                             table that a guard reads an argument. Admission says who passes.
--   Gateway/Reservations      src/gateway/socket-reservation.service.ts. A connection is its id; its
--                             timer and its close listener are events. Slots and Claims are proofs.
--   Gateway/Events            src/gateway/events.gateway.ts: the sockets and what is shared of them;
--                             Tokens (cookie and message), Polling (tick and revalidation, from one
--                             awaited call to the next), Handlers (everything else). Each handler is
--                             a turn of the event loop; Reachable puts the turns in any order, and
--                             Population, Turns, Arrival and Admission are its proofs. After
--                             `socket.disconnect` the event `disconnect` is a turn of its own.
--   Auth/LoginAbuse           src/auth/login-abuse.service.ts. toLowerCase and the SHA-256 are
--                             parameters, the clock is an argument, the delay that is slept the
--                             result. Bounds, Keys, Window and Lockout are proofs.
--   Auth/OauthChallenge       src/auth/oauth-challenge.service.ts. The SHA-256 is a parameter.
--                             SingleUse is a proof.
--   Setup                     src/setup/setup.service.ts, initAdminRegister, over Auth/Password, which
--                             is the byte limit of src/auth/password.ts. Once is a proof.
--   Scenarios and the Tests   concrete data, runs and instances.
--
-- Choices. Names follow the source in snake case; an enum value keeps its word, with ADMIN, MOD
-- and USER as admin, moderator and user. Times are milliseconds, counts and sizes natural numbers;
-- a JavaScript number read from the configuration is an exact fraction or no number, and the
-- memory ratio is that fraction, so the rounding of floats is not modelled. Promise.all runs its
-- parts in order. Retries recurse on the number left, which the source bounds by MAX_RACE_RETRIES
-- = 1, so no handler needs fuel. A transaction that holds an advisory lock meets
-- `interfere_locked` between its statements and `interfere` before it has the lock; a throw keeps
-- what was written before it, which matters only where a transaction could throw after a write,
-- and the modelled ones do so only when a row vanishes under the lock, a new account meets a taken
-- name, and then leaves no account, or a new session meets a taken identifier. Locks of rows do
-- not keep others out. Texts are sequences of code points, where JavaScript cuts and counts UTF-16
-- units. The RCON exec with its stream and deadline is one reply of the daemon. A SQL statement
-- fails on the violation of a key only, never for the lack of a connection. Sleeping is an awaited
-- call without effect. Logging is left out.
--
-- Not modelled: the listings of servers, access requests, users and permissions; the rest of setup,
-- the collection of metrics and the Socket.IO adapter, the filter of database errors, migrations;
-- uniqueness of container ids; the HTTP layer, validation of bodies and dependency injection.
pub mod Common
pub mod Schema
pub mod Text
pub mod Http
pub mod Daemon
pub mod Memory
pub mod Effects
pub mod Docker
pub mod Guards
pub mod Gateway
pub mod Scenarios
pub mod Servers
pub mod Access
pub mod Users
pub mod Admin
pub mod Auth
pub mod Setup
