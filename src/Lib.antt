-- ===== src/Lib.antt =====
-- The packages of KALEN, a messaging platform in which people and agents meet: what the platform
-- lets a caller do (packages/identity), the tasks that agents give each other
-- (packages/a2a-router), the tools that they may call (packages/mcp-gateway), and the rate
-- limiter and the guards of the server (apps/server).
--
-- The files follow the packages. Prelude has the tests on native numbers and strings, lists, the
-- `Map`s and `Set`s of strings in their order of insertion, and `Result`. Shared has the types
-- of packages/shared/src/types: Shared/Json for values of unknown shape and `JSON.stringify`,
-- Shared/Tool for types/mcp.ts, Shared/Task for types/a2a.ts with the table `VALID_TRANSITIONS`,
-- Shared/Card for the agent card.
--
-- Identity is packages/identity/src: Identity/Roles for rbac/roles.ts (`rolePermissions`),
-- Identity/Access for rbac/permission-check.ts (`checkPermission`, `checkScope`,
-- `evaluateAccess`), and Identity/Access/Laws for what they decide. Identity/Token is
-- packages/identity/src/token/jwt.ts (`createToken`, `verifyToken`, `refreshTokens`), in which
-- the library jose is a parameter with the two laws of `IsJose`, and Token/Trips what becomes of
-- a payload. Identity/Token/Plain is such a library for the tests.
--
-- A2a is packages/a2a-router/src: A2a/Lifecycle for task/task-lifecycle.ts (`transitionTask`,
-- `addArtifact`, `addMessage`, `createInitialTask`), with Lifecycle/Machine for the diagram as a
-- relation and Lifecycle/History for the histories of tasks; A2a/Cards for
-- agent-card/agent-card-service.ts, in which `fetch`, the signatures of cards and the origin of
-- a URL are parameters, with Cards/Checked for what every stored card has passed and
-- Cards/Lookups for the two indexes; A2a/Router for router/a2a-router-service.ts (`createTask`,
-- `delegateTask`, `cancelTask`, `transitionTask`, `addTaskMessage`, `addTaskArtifact`,
-- `discoverAgent` and the lists). Router/Calls is a run of calls, Router/Evolves and
-- Router/Effects what one call may do, Router/Induction the induction on a run, and the other
-- files have the invariants that go by it.
--
-- Mcp is packages/mcp-gateway/src: Mcp/AllowList for governance/allowlist.ts, with
-- AllowList/Policy for the policy that it implements and AllowList/Listing for
-- `getAllowedTools`; Mcp/Server for server/mcp-server.ts, with Server/Handlers and
-- Server/Builtins for the built-in tools; Mcp/Client for the requests and the connection of
-- client/mcp-client.ts, with Client/Runs for its runs and Client/Promises for what becomes of
-- the promises; and Mcp/Gateway for gateway/gateway-service.ts (`registerServer`,
-- `unregisterServer`, `routeToolCall`, `recordAudit`), with the methods that only read in
-- Gateway/Listings, the registrations in Gateway/Servers, and the records of a call in
-- Mcp/Invocation. The gateway asks the access checks and the allowlist. Gateway/Guards is about
-- the start of a call, Gateway/Calls about calls that overlap, Gateway/Audit about the log,
-- Gateway/Registry about the routes, Gateway/Courses about them with `shutdown` among the steps.
--
-- Server is apps/server/src: Server/RateLimiter for
-- common/middleware/rate-limiter.middleware.ts. RateLimiter/Trace is a run of it with the
-- requests that it lets through, RateLimiter/Ways what one request and one cleanup do,
-- RateLimiter/Windows the counts, RateLimiter/Decision the windows as they are read off that
-- record, RateLimiter/Sharing and RateLimiter/Resets what the one count and the header mean.
-- Server/Guards is common/guards (`JwtAuthGuard`, `RbacGuard`), and Guards/Admission what the
-- two let through: the guards read the tokens of Identity/Token and ask Identity/Access.
--
-- A class is a record of its fields, and a method a function from the record and the arguments
-- to the answer and the new record. A method that throws gives an error and the record as it was
-- at the throw. The clock and the random ids are arguments: `now` is in milliseconds, and a
-- theorem that needs an id to be new says so. Counts are natural numbers, for the source counts
-- only up, and down with `Math.max(0, …)`; a difference of two times is an integer. An operation
-- that the source runs asynchronously is one step here, but for `routeToolCall`, which is two,
-- `begin` and `finish`, with any other steps between them. Objects that the source writes to in
-- place are replaced in the `Map` that holds them; no theorem speaks of a reference to one that
-- a caller has kept. Only the printing of numbers in Shared/Json/Print needs fuel, the number
-- and one, which is more than it has digits.
--
-- Server/Events is gateway/events.gateway.ts, on the sockets' identities and the users' sets of
-- sockets: Events/Steps is a run of its handlers, Events/Tracking, Events/Stale and
-- Events/Offline what the two maps say of each other, Events/Access in whose name a socket
-- speaks. Server/Rooms is messaging/room.service.ts over Server/RoomTables,
-- database/repositories/room.repository.ts with the constraints of the tables; Server/Messages
-- is messaging/message.service.ts over message.repository.ts; Server/Pages is the paging that
-- they share. A table is a `Map` by id or a list of rows, a query a filter, and what the
-- database puts in order comes as a function. Server/Accounts is the tables of users and agents,
-- and Server/Auth auth/auth.service.ts: the agents' sign-in with Auth/Agents, the tokens with
-- Auth/Sessions, the passkeys in Auth/Passkeys. Server/Agents is identity/agent.service.ts, with
-- Agents/Creation for a new agent's row and first sign-in and Agents/Scopes for its role.
-- Server/Tasks is a2a/a2a.service.ts over the router of A2a/Router, with Tasks/Refused for what
-- the columns of the table ask and Tasks/Restart for what is left in it.
--
-- Below them, Shared/Text has texts as lists of UTF-16 code units with `trim` and the like,
-- Shared/Validation is packages/shared/src/utils/validation.ts, in which the regular expressions
-- are written out as tests on units; Identity/Keys is the part of
-- packages/identity/src/agent-identity/creation.ts on keys, with `btoa` and `atob` of the
-- language and the library of signatures as a parameter (`IsNoble` says what is asked of it);
-- Identity/Manifest is agent-identity/manifest.ts, Identity/Agents the rest of creation.ts with
-- verification.ts, and Identity/WebAuthn is packages/identity/src/webauthn, in which the library
-- is a parameter, with the stores of challenges in WebAuthn/Stores.
--
-- Not modelled: the web client, the HTTP controllers and the services of audit and of tools of
-- the server, the queries that no modelled service makes, the signer of cards, and the start of
-- the server. Ids are texts: what the database does with a text that is no UUID is left out.
pub mod Prelude
pub mod Shared
pub mod Identity
pub mod A2a
pub mod Mcp
pub mod Server
