-- ===== src/Lib.antt =====
-- A model of the AXIAM SDK for Rust, a client library for an identity server: the parts of it that
-- decide something by themselves, between the network on one side and the application on the other.
--
-- Parts, and the files that model them:
--
-- - Error: src/error.rs, the error type that every other part returns, and how statuses map to it.
-- - Retry: src/retry.rs, the bounded retry of read-only operations. The loop of `run_until` acts on
--   a world `W` through the operation, the jitter, the clock and the sleepers, and keeps a trace of
--   what it did. Its fuel is the attempt cap, which is enough: the run always returns.
-- - Memo: src/memo.rs, the opt-in memo of access decisions, as a record of its map, its queue and the
--   flags of its poisoned locks. Proofs hold for every key type with a lawful equality.
-- - Webhook: src/webhook.rs, the check of a delivery's signature, from the text of the header to the
--   event, over any MAC and any hex decoder.
-- - Manifest: src/management/manifest/spec.rs and plan.rs, the desired shape of a tenant and the order
--   in which its resources are created. The fuel of a climb to the root is two more than the number of
--   resources, which is enough: a climb sees each declared key once.
--   Execute is `execute` of mod.rs, which sends the steps of a plan one by one: `run`, which sends the
--   requests of one step, is any function on a world. Report and Plan are the types around it.
--   Validate is two of the checks in plan.rs, `duplicates` and `check_bindings`.
-- - Reactor: src/amqp/reactor/registry.rs and router.rs, the events that the server asks a reactor
--   about, what a reply may change, the default failure policy, and the table that composes one
--   handler per event into the handler of the reactor. Protocol is protocol.rs, the check of an event
--   and the signing of a reply; Runtime is `dispatch_delivery` and `publish_answer` of runtime.rs,
--   from the bytes of a delivery to the list of what is done, over the guard of src/amqp/consumer.rs.
--   What the handler comes to is an argument, a panic of its call told apart from one of its future.
-- - Oidc: src/oidc/state.rs, the store in memory of pending authorizations, as a record of its map
--   and its time to live; each operation takes the readings of the clock that it makes.
--   SingleFlight is src/oidc/single_flight.rs with `oidc_refresh` of src/oidc/exchange.rs: any number
--   of callers over one slot, as a relation of single steps that interleave in any order.
--   Device is src/oidc/device.rs with the error of src/oidc/exchange.rs: the schedule of the polls,
--   one poll over the runner of src/retry.rs, and the loop of a login. Its fuel is one turn for each
--   second of the grant and one more, which is enough: a wait is a second at least. Ciba is
--   `ciba_await` of src/oidc/ciba.rs with its polls, and has the same fuel.
--   The polls of both loops are kept beside the world; Device.Pacing and Ciba.Spacing say which polls, and
--   which worlds between them, a loop may go through, without the loop.
-- - Amqp: src/amqp/consumer.rs and hmac.rs, from the bytes of a delivery to the handler and the
--   acknowledgement, with the guard against replays. JSON, the MAC and the decoders are the records of
--   Amqp.Json; a reading of the clock is a pair, of UTC and of the monotonic clock.
-- - Token: src/token. Revocation is revocation.rs, the poller of the revocation feed, as a record of its
--   state.
--   Session is manager.rs and refresh_guard.rs: the state of a session, and the refresh that callers
--   share under its lock. Keys, Binding and Verify are jwks.rs: the cache of keys with its limits on
--   fetches, the confirmation claim against the proofs presented, and the guard entry points over the
--   cache, the confirmation and the feed. The parser of a header, the building of a key and the check of
--   a signature with the registered claims are parameters.
-- - Oidc.IdToken: src/oidc/id_token.rs, the claim checks; the signature half, of src/token/jwks.rs, over
--   Token.Keys; and, in TokenSet, to_token_set of src/oidc/exchange.rs, which uses both.
-- - Middleware: src/middleware/actix.rs, the extractor from a request to an identity, over Token.Verify;
--   Access is src/middleware/authz.rs, the guards of a route over the calls of a client.
--
-- Durations and instants are natural numbers of nanoseconds. Code of other packages is a parameter.
--
-- Not modelled: the HTTP, gRPC and AMQP transports, TLS, JSON, cryptography, the generated models and
-- the wrappers of single requests, which are I/O or code of other packages; nor the other OIDC flows,
-- UMA, shared signals, the connection of a reactor, the metadata of a protected resource, the planning of
-- a manifest and its network section, and the rest of `validate`.
pub mod Prelude
pub mod Error
pub mod Retry
pub mod Memo
pub mod Webhook
pub mod Manifest
pub mod Reactor
pub mod Oidc
pub mod Amqp
pub mod Token
pub mod Middleware
