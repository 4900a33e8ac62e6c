-- ===== src/Lib.antt =====
-- A model of the core of parsec, a realtime gateway: named channels with a lifecycle, and the
-- tokens, keys and grants that guard them.
--
-- The program's parts. Package channels holds the grammar of channel names, patterns over them,
-- and the manager, which keeps the lifecycle of every channel in a store and reports each
-- transition to subscribers, to an event bus and to a sweep callback. Package auth mints tokens,
-- decides with a token's claims what its holder may do on a channel, keeps the ring of signing
-- keys, and detects the reuse of a refresh token. Package tokenbroker asks an authorizer for
-- channels and the issuer of auth for a token, and revokes tokens. Package ratelimit grants each
-- key a number of events per window. Package envelope numbers messages and finds gaps between
-- them, package cache keeps envelopes, and package sinks retries deliveries and keeps those that
-- fail. The facade (parsec.go), the RPC surface (rpc, service) and the broker call these packages
-- and hand messages on.
--
-- The files.
-- - Common and its children: lists, bytes, maps and integers. A Go string is its list of bytes, a
--   Go map an association list in the order of the loop that ranges over it, a time.Duration an
--   integer, and a time.Time a number of nanoseconds from a fixed origin.
-- - Errors: errors/codes.go. A (T, error) pair is `Result T`, which keeps the code of an error.
-- - Channels/Name: channels/name.go. `parse_name` is ParseName, `to_string` Name.String,
--   `build_name` BuildName. Grammar states the grammar with no parser, Parsing and Building are
--   about the parser and the builder.
-- - Channels/Pattern: channels/pattern.go. `parse_pattern` is ParsePattern, `matches`
--   Pattern.Matches. Matching has the matching relation, Parsing the grammar of patterns, Naming the
--   two together.
-- - Channels/Store: channels/memory_store.go, with the types of channels/manager.go and
--   channels/events.go. Each method is a function from the map of channels to the new map and the
--   method's result; the store's lock makes a method one step. Calls has runs of timed calls, Expiry
--   is about Sweep, Invariant about well-formed stores, Lifecycle about the moves of one channel,
--   PrivateTtl about the TTL of private channels.
-- - Channels/Manager: the manager of channels/manager.go over that store. Emission is about what
--   it reports, Limits defines runs of its methods, PrivateTtl is about them.
-- - Auth/Scope: auth/scope.go and Claims.Authorizes of auth/claims.go, with the cache of the
--   parsed pattern that each check fills. Grants states what is granted.
-- - Auth/KeyRing: auth/keyring.go and buildHeader of auth/signer.go. Private and public keys and
--   the encoding of a header are parameters. Validity, Runs, Rotation, Retirement and Absence are about
--   the rotation of keys, without LoadSnapshot.
-- - Auth/Refresh: auth/refresh_store.go. Reuse is about redeemed tokens, Revocation and Exactly about revoked
--   families.
-- - RateLimit: ratelimit/memory.go and Limit of ratelimit/types.go. `charge` is AllowWithLimit on
--   one bucket, `allow_with_limit` the method. Window is about what a key is granted, Sweeping is
--   about Sweep, Normal about Limit.Normalize. Rules has the rules that choose a limit for a channel,
--   of ratelimit/types.go.
-- - Auth/Issuer: auth/issuer.go. Each of its functions that mint tokens is a function of the
--   issuer's settings and of a `World`, which holds the clock, the random identifiers and the
--   signature. Lifetimes is about pairs, Claimed about single access tokens.
-- - Auth/Signer: auth/signer.go. `sign` is Signer.Sign, `sign_with` signWith; what crypto/*, base64 and
--   JSON do is the records `Crypto` and `Codec`.
-- - Auth/Verifier: auth/verifier.go. `verify` is Verifier.verify, `verify_with` verifyWith. Checks is
--   about the tokens that are accepted, Signatures about the five algorithms, RoundTrip about tokens
--   that are signed and then verified.
-- - Auth/SubscribeAuthorizer: auth/subscribe_authorizer.go. A gate takes its state and returns it.
--   Deciding is about the answers of the authorizer.
-- - Facade/Refreshing: RefreshAccessCtx of parsec.go, over the verifier, the channel store, the refresh
--   store and the issuer, with one reading of the clock for a call. Redeeming is about the refresh
--   store, Rotation about one token, Families about the tokens of a family.
-- - Auth/Snapshots: Snapshot, LoadSnapshot and decodePrivatePEM of auth/keyring.go; what hex, time and
--   x509 do is the record `Forms`. Entries is about one key, Loaded about the lists of entries,
--   RoundTrip about a whole ring, Reloading about runs of all that writes to a ring, LoadSnapshot
--   included, Retiring about a retired key in such runs.
-- - Facade/Keys: mutateKeys, ReloadKeys, GenerateKeyAlg, PromoteKey and RetireKey of parsec.go. The store
--   of the ring (auth/keyringstore.go) is the record `KeyRingStore`. `mutate_from` counts down the five
--   attempts. Persisting has a relation of the attempts.
-- - Facade/Channels: OpenPublic and CreatePrivate of parsec.go over the manager and the issuer. Burning
--   is about a channel whose tokens are refused.
-- - Facade/Limits: resolveLimiter, widestLimit, buildSubscribeGate, CheckRateLimit, CheckPublishLimit
--   and CheckSubscribeLimit of parsec.go over the memory limiter. Budgets is about the keys, Widest
--   about the limit that the limiter is built with.
-- - Sinks: sinks/retry.go, with the queue of sinks/dlq.go and sinks/dlq_memory.go in Queue. A
--   `World` says by the number of the attempt what the wrapped sink and the context answer; float64
--   is a parameter. `send_from` is the loop of Retrier.Send, Delivery has the rest of Send and
--   WrapSink. Attempts is about the loop, Letters about what it records, Backoff about the waits,
--   Listing about the queue.
-- - Envelope: envelope/envelope.go. `next` and `observe` are SequenceTracker.Next and
--   GapDetector.Observe, on int64 written out. Accounting is about gaps, Numbering about a tracker
--   and a detector together, Checks about Validate.
-- - TokenBroker: tokenbroker/broker.go. `issue_for` is Broker.issueFor over the issuer of
--   Auth/Issuer; Requests has Delegate, Revoke and IsRevoked, Roles the RoleAuthorizer. Granting is
--   about the tokens, Revoking about MemoryRevocations, Fitting about the role authorizer.
-- - Cache: the memory cache of cache/cache.go, its map and its recency list. Elements and
--   Coherence are about the two together, Recency has the specification of the methods, Refinement
--   that of runs.
-- - Schema: schema/pattern.go and schema/registry.go. `match_channel` is Pattern.Match, `register`,
--   `update`, `deregister` and `resolve` are the methods of MemoryRegistry. Resolving is about the
--   pattern that a channel resolves to.
-- - Tests: each theorem below, where it has hypotheses or arguments, applied to a concrete input.
--
-- Bounds. Every loop goes over a list or counts down its attempts, but for two that run on fuel: the attempts of Retrier.Send,
-- with one unit for each attempt of the normalized configuration and one for the last test, and
-- the eviction of MemoryCache.Put, with one for each entry and one more: a round of either uses up
-- an attempt or an entry. Times, lengths and counts do not overflow in the model, as Go's 64-bit
-- integers would in the year 2262 or beyond 2^63 events; the numbers of envelopes and the seconds
-- of a delegation wrap as int64 does.
--
-- Not modelled: the goroutines that tick a sweeper or a pruner (a tick is a call at some time),
-- the locks, the Redis stores, event buses, caches and limiters (their scripts run in Redis),
-- cryptography, random numbers and JSON, the generated RPC code, HTTP handlers, the command line,
-- metrics and the configuration. The classification of a sink's errors and the facade's publishing have no model
-- yet.
pub mod Common
pub mod Errors
pub mod Channels
pub mod Auth
pub mod RateLimit
pub mod Sinks
pub mod Envelope
pub mod TokenBroker
pub mod Cache
pub mod Schema
pub mod Facade
pub mod Tests
