-- ===== src/Lib.antt =====
-- The proof-stell contract and the service beside it: a Soroban contract that keeps a registry of
-- document hashes, its on-chain rate limit and its governance.
--
-- The contract (src/lib.rs) is Contract. An entry point is a function from the environment to an
-- outcome: a value with the new environment, an error with the environment at the failure, or a trap
-- of the host.
--   Contract/Host        the stored types, and the SDK's storage, addresses, hashes and symbols as a
--                        record with laws, an instance argument of all that follows
--   Contract/Monad       outcomes, the SDK calls (require_auth, get, set, has, remove, publish,
--                        timestamp, update_current_contract_wasm)
--   Contract/Documents   register_document, revoke_document, their batches and the reads
--   Contract/RateLimit   check_rate_limit, set_rate_limit_config, get_rate_limit_retry_after
--   Contract/Governance  initialize, upgrade, migrate, set_feature_flag and the reads
--   Contract/History     sequences of invocations of this code, each committed or rolled back; an upgrade
--                        that succeeds ends them
--   Contract/Frames      which cells an entry point may write
--   Contract/Memory      a concrete host, and Contract/Tests runs and instances on it
-- The rollback of a failed invocation is the host's: of it the model assumes that the store is the one
-- from before. Addresses authorise an invocation by a function of the environment.
--
-- The service beside it has seven parts, each with its clock as an argument. The configuration makes the
-- client of Horizon, a verification reads its text with the hash validator and goes through the circuit
-- breaker, and the webhooks keep their dead letters in the cache.
--   Limiter              src/rate_limit.rs: a token bucket for each issuer behind a global limiter.
--     Limiter/Bucket     AtomicTokenBucket: the packed word, one pass of try_consume, the reads
--     Limiter/Level      the packed word as a level of tokens at a time
--     Limiter/Clock      calls one after the other, on a clock in order and on one that is not
--     Limiter/Callers    callers that interleave their loads and compare-and-swaps
--     Limiter/Callers/Linear  the order in which these calls take effect
--     Limiter/Issuers    PerIssuerRateLimiter; the global limiter, of the crate governor, is a parameter
--     Limiter/Eviction   one issuer's calls and the others', and evict_stale; Limiter/Alike and
--                        Limiter/Harmless the requests after it
--   Cache                src/cache.rs: the cache before the verification service.
--     Cache/Breaker      CacheCircuitBreaker, and Cache/Recovery what it does over a history
--     Cache/InMemory     CacheKey and InMemoryCache; Cache/Recency and Cache/Capacity its invariant
--     Cache/Redis        HealthCheckState, RedisCache and CacheBackend; the server is a parameter
--     Cache/Outage       an open circuit
--   Audit                src/event.rs: audit events.
--     Audit/Events       validation, EventIngestor and EventStore
--     Audit/Ordering     what is accepted and how it is numbered
--     Audit/Keys         from_contract_event and its key, Audit/Identity which events share one, and
--                        Audit/Decimal the numerals in it
--   Webhook              src/webhook.rs: deliveries of audit events.
--     Webhook/Dispatch   WebhookDispatcher; the network, the clock and the serialisation are parameters
--     Webhook/DeadLetters  the delays and the bound on the dead letters
--     Webhook/Drain      drain_dlq and dlq_depth; Webhook/Rounds the network's answers, Webhook/Lossless
--                        and Webhook/Emptied what is drained and left
--   Hash                 src/hash_validator.rs: the hashes that the contract takes.
--     Hash/Tools         the text functions and errors; the crates subtle, hex and base64 are parameters
--     Hash/Validator     HashValidator: the scan, and the validation that does not branch on the bytes
--     Hash/Canonical     CanonicalHash and the memo, Hash/Registry HashRegistry
--     Hash/Ascii, ConstantTime, Policy, Bytes, NoPanic, RoundTrip, Once  what follows for them
--   Stellar              src/stellar.rs: the client of Horizon.
--     Stellar/Breaker    CircuitBreaker, its transitions and its metrics
--     Stellar/Client     the answers and verdicts, and the record Horizon: the requests, the clock, the
--                        cache, the queue before a request and the arithmetic of floats (Stellar/Floats),
--                        as parameters
--     Stellar/Answers    parse_horizon_transaction and the fallback to the cache
--     Stellar/Verify     verify_hash, verify_hash_with_retry, check_connection and the delays
--     Stellar/Guarded, Transitions, Opens, Accounts, Attempts, Unreachable, Memo, Confirmed, Delays,
--     Malformed          what follows for them
--   Config               src/config.rs: what the service is started with.
--     Config/Variables   the variables and the complaints, and the record Environment: the values of the
--                        variables, and the crates url and stellar_strkey as parameters
--     Config/Versions    ValidatedPort and ConfigVersion, Config/Parse how one variable is read
--     Config/RateFields, StellarFields, CacheFields, WebhookFields, Checks, Load
--                        AppConfig::from_env_with_metrics, variable by variable and together
--     Config/Ranges, Groups, Accepted  what an accepted configuration is like
--     Config/Clients     StellarClientConfig::from_app_config and StellarClient::with_config
-- A machine word is a native number with its wrap-around or saturation written out (Base/Words). A hash
-- map is an association list with at most one entry for a key (Base/Assoc). The loops are structural:
-- the eviction recurses on the queue that it pops, and the compare-and-swap loop, which no bound ends,
-- is a schedule of steps of any length. Shared memory is sequentially consistent.
-- A text is the list of its bytes, of which chars reads the characters; trim and to_lowercase are those
-- of an ASCII text. A duration is a
-- number of milliseconds, and of seconds in the contract. The loop of a verification recurses on the
-- retries that are left, which the client fixes when it starts, so that it needs no fuel. A message of a
-- failed validation is kept as what it complains of, without its wording.
--
-- Not modelled: the metrics (counters that nothing reads back), HTTP and the start of the service in
-- src/main.rs, StellarClient's warm_cache and anchor_transfer, the signature of a webhook's request, the
-- waiting of until_ready, and the serialisation to JSON.
pub mod Base
pub mod Contract
pub mod Limiter
pub mod Cache
pub mod Audit
pub mod Webhook
pub mod Hash
pub mod Stellar
pub mod Config
