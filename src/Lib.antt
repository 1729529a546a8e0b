-- ===== src/Lib.antt =====
-- The verification library of Alzette: a gateway between the clients of many tenants and the
-- providers of language models.
--
-- The program, as far as it is modelled. A client posts a request in one of three protocols. The
-- gateway authenticates it, validates its body, enters it in a ledger, resolves the model's alias
-- to a route of the tenant, and calls the route's target, again after a pause where the failure
-- may pass. Each attempt, and the end of the request, is recorded in the ledger, and the client
-- is answered. The store keeps tenants, keys, routes, targets and the ledger.
--
--   Shared, Shared/*          lists, Go maps (as lists of entries), int64, sorting, tests
--   Platform, Platform/Portal internal/platform/types.go, portal.go: the data, the errors
--   Credentials               internal/credentials/credentials.go: tokens and their form
--   Memory/Defs               internal/store/memory/store.go: the state and its searches
--   Memory/Ledger             CreateInferenceRequest, SetInferenceRequestRoute,
--                             CompleteInferenceRequest, CreateProviderAttempt,
--                             CompleteProviderAttempt, UpdateTargetHealth
--   Memory/Access             Authenticate, ResolveRoute, ListRoutes, ListInferenceRequests,
--                             GetInferenceRequest, AttemptsForRequest, RevokeKey
--   Memory/Provision          Provision, RotateKey
--   Provisioning, .../*       internal/provisioning/validate.go
--   Memory/Calls, Numbering   sequences of calls, the transitions of the ledger, its invariant
--   Gateway/Metadata, Outcome, Usage
--                             internal/gateway/gateway.go: names, classes of failure, usage
--   Gateway/World             what a run of the handler is given, and the state that it changes
--   Gateway/Attempt           performBifrostAttempt
--   Gateway/Finish, Serve     ServeHTTP: from its end back to its beginning
--   Gateway/Reply             internal/gateway/protocol.go: paths and errors of the protocols
--   Gateway/Auth              authenticateProtocol, and Authenticate of internal/api/api.go
--   Gateway/Request           internal/gateway/request.go: validate and what it calls
--   Gateway/Chunk, Stream     internal/gateway/stream.go: chunks, frames, the streaming attempt,
--                             serveStreaming
--   Billing                   internal/billing/billing.go: checkouts, sessions and the summary
--   Endpoints                 internal/endpoints/endpoints.go: what customers ask of endpoints
--   Workforce                 internal/workforce/workforce.go: people, groups, invitations
--   AgentAuth                 internal/agentauth/agentauth.go: credentials for a person's agent
--   Worker                    internal/worker/worker.go: a round of roll-ups and probes
--   Service                   the gateway over the in-memory store
--   Tests                     concrete inputs
--
-- An operation of the store is a function from the store to a result and the store after it: the
-- source holds one lock in each, so that concurrent runs are sequences of calls. A Go map is a
-- list of entries in one of the orders in which Go may iterate over it. The handler is a chain of
-- functions, each with the branches of one part of ServeHTTP, that passes a World on: the store,
-- how often the clock was read and an identifier drawn, the calls of the provider and the pauses.
-- The clock, the identifiers, the provider, the cancellation by the client, the hash, the JSON
-- codecs and the check of a target's address are parameters, so that a theorem holds of every
-- course that they can take. The store of the handler is a parameter too (StoreOps), with laws
-- (LedgerLaws, Keeps) that Service proves of the in-memory store.
--
-- The loop over the attempts is recursion on the rounds that are left, at first the target's
-- max_attempts. The loop over the frames of a stream is on fuel, one more than the stream has
-- lines: each round takes a line at least. A time or a duration is its number of nanoseconds; the
-- delay between attempts and Retry-After are int64 with their wrap-around.
--
-- Beside the gateway stand services of the portal over stores of their own: billing, endpoints,
-- workforce, the credentials of agents, and the worker, which probes targets. Each is a set of
-- functions over a record of its store's operations (BillingStore, EndpointStore, WorkforceStore,
-- AgentStore, RollupStore). Lists of identifiers and of aliases have a normal form, in Shared/Distinct.
--
-- Not modelled: the translation of bodies and of streams between protocols, the SQL store, the
-- portal, the webhook of the payment provider, the HTTP handlers of the other services, federation
-- and the commands. The handler's contexts appear as the two flags of an Exchange and of a
-- StreamReply. Headers that do not depend on a result are left out of a Response.
pub mod Shared
pub mod Platform
pub mod Credentials
pub mod Billing
pub mod Memory
pub mod Gateway
pub mod Service
pub mod Tests
pub mod Provisioning
pub mod Worker
pub mod Endpoints
pub mod AgentAuth
pub mod Workforce
