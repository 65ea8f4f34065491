-- ===== src/Lib.antt =====
-- cafe-persistence keeps the scans of a discovery service: wallet scans, which a caller moves from
-- state to state by commands over HTTP, and TLS scans, which follow messages from NATS. Both are
-- charged to a ledger of credits, one a scan, under the limits of the user's plan. Rows are in
-- Postgres, the last results and the scans without a row in Redis. It also keeps the crypto
-- policies of wallet owners.
--
-- Parts and files:
--   * pkg/scan: the states and the test of a transition are Scan, what they allow Scan/Lifecycle.
--   * internal/domain: the results and rows are Domain and Domain/Tls, their mapping
--     (FromScanResult, ToScanResult, FromTLSScanResult, ToTLSScanResult) Domain/Entity and
--     Domain/Tls, the account kind Domain/WalletKind, plans and users Domain/Plan.
--   * internal/repository/scan_usage_ledger_repository.go is Ledger, a function for each method;
--     what its statements promise is Ledger/Quota.
--   * internal/persistence/planlimit/resolver.go, with the lookups by id of the user and plan
--     repositories, is PlanLimit.
--   * internal/persistence/storage/postgres.go is Storage/Tls (TLSWriter) and Storage/Wallet
--     (WalletWriter); what the TLS writes leave is Storage/Tls/Writes. The RedisCache writes of
--     redis.go for TLS are the key writes of ScanEvents.
--   * internal/wallettransition/apply.go is WalletTransition (commands, guards), its child Rows
--     (newRow and the statements) and Apply (applyTx, applyMissing, applyExisting, prepareQuota,
--     finishQuota, writeScoped, reload, Apply). Spec says what a transition may do; Refines,
--     Transaction, Effects, Guarantees and Liveness relate the code to it.
--   * internal/persistence/handlers: wire.go is ScanEvents and ScanEvents/Handlers, scan_events.go
--     is ScanEvents/Commit (the database part) and ScanEvents/Handlers. ScanEvents/Quota,
--     Completion, Credits and Failure are about its two transactions, Duplicates about late
--     messages. internal/persistence/nats/subscriber.go is ScanEvents/Subscriber; Limits, Limited
--     and Deliveries are about the limit of a user over any messages.
--   * internal/scanapi/transition.go: transitionCommand is ScanApi/Transition, with the trimming
--     and lower-casing of strings in ScanApi/Text; what it lets through is ScanApi/Accepted. The
--     endpoint ApplyWalletTransition, with its projection to the cache and its messages, is
--     ScanApi/TransitionRoute; Messages, Projection, Guards, Answers, Transitions and Resend are
--     about it, and WalletTransition/Reported about the row that Apply reports to it.
--   * internal/repository/pending_v1_scan_repository.go is Pending, on keys that expire
--     (Pending/Held); Pending/Reservation and Exclusive are about a reservation.
--     scan_result_repository.go and tls_scan_result_repository.go are ScanResults, with Paging and
--     Deletion about their methods.
--   * internal/scanapi/handler.go: requireUserID, the responses (respond.go) and the stores are
--     ScanApi/Http, the query (wallet_filter.go) ScanApi/Query, the JSON objects ScanApi/Rows, the
--     handlers ScanApi/PendingRoutes, WalletRoutes and TlsRoutes, the ledger, the routes
--     (server.go) and the bearer token (auth.go) ScanApi/Serve. Within, Reads, ReadRoutes, SameFor,
--     Isolation, Promises and Bounds are about all of them.
--   * internal/domain/crypto_policy.go and internal/cpstore/store.go are Policies (records, errors,
--     the unique index of internal/cpddl/migrate.go) and Policies/Store (a function for each
--     method); wallet_target.go is Policies/Wallets. Payload and Roundtrip are about a created
--     policy, OneActive and Calls about any calls. MigrateCPSchema of internal/cpddl/migrate.go is
--     Policies/Schema, with Indexes, Kept and Migrated about it. internal/cpapi is Policies/Http
--     (responses, JSON) and Policies/Routes (handlers).
--   * internal/config/chain.go is ChainConfig, what Validate ensures ChainConfig/Validated.
--   * internal/walletobservation/export.go is WalletObservation and, for the event as a whole,
--     WalletObservation/Export; its chain ids are WalletObservation/ChainIds.
--   * The DSN of pkg/postgres/postgres.go is Connections, with Masked about its password.
--   * cmd/persistence/main.go, cmd/healthcheck/main.go and internal/health/server.go are Process,
--     with Startup about the probes of a start that fails.
--   Prelude and Db are shared: Try and Exec are fallible and stateful steps, Db/Table is what SQL
--   does to rows, Db/Ordered the order and the window of a SELECT, Db/Meets, Preserves and Leaves
--   are the logic of steps, and Db/Scripted is a database for examples. Tables is the state.
--   Examples applies the results below to concrete values.
--
-- The outside. gorm and Postgres are the parameter Database of Db: a connection sees tables, a
-- statement may fail, and others may write between two statements. Theorems about what is stored
-- assume IsSerial: the tables change by this connection only, and a rollback restores them; any
-- statement, begin or commit may still fail. Redis and NATS are databases of their own, and so is
-- the cache beside the pending scans. encoding/json is a record of marshal and unmarshal,
-- uuid.Parse a function, the case table of unicode a function. A UUID is a number, uuid.Nil 0 (the
-- BeforeCreate hooks, which replace it, are in the INSERTs); a time is a number; Go's int is ℤ; a
-- float64 is only copied. What Postgres keeps of the times and the JSON of a policy are functions.
-- A NULL text column reads as "". In Postgres, a transaction whose statement fails is rolled back;
-- the model rolls back where the code returns the error.
--
-- Loops are structural recursion and the retry of applyExisting is unfolded as the code has it, so
-- nothing runs on fuel.
--
-- Not modelled: logging, metrics and timeouts; the wiring of main, the values of viper and the
-- listeners; the schema of the scans (internal/scanddl) and MigrateCPSchema on other databases than
-- Postgres; the expiry of cached results.
pub mod Prelude
pub mod Db
pub mod Scan
pub mod Domain
pub mod Tables
pub mod Ledger
pub mod PlanLimit
pub mod Storage
pub mod WalletTransition
pub mod ScanEvents
pub mod Pending
pub mod ScanResults
pub mod ScanApi
pub mod Policies
pub mod ChainConfig
pub mod WalletObservation
pub mod Connections
pub mod Process
pub mod Examples
