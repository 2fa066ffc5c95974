-- ===== src/Lib.antt =====
-- skr-crypto: a service that sends USDT on TRON for clients that name each payment with an
-- idempotency key. Everything modelled here is in skr_crypto/server/.
--
-- The parts and how they meet. `POST /api/v1/send` (routes.py, `_send_impl`) runs under one lock: it
-- resolves a wallet, checks the recipient, reserves the key in an idempotency store, checks balances
-- and fees, signs and broadcasts, commits the txid, and writes an audit record. A background poller
-- reads the committed keys and records what became of each transaction. Each audit record may add
-- rows for webhooks and alerts, which two more threads deliver. Before the handler runs, a request
-- passes the middleware's rate limiter, the token check and the validation of its body.
--
-- Which file models which part:
--   Prelude          shared names, tests, lists, dicts and text searches
--   Idempotency      idempotency.py. `Idempotency` has the interface `Store` and `Durable`; `Memory` and
--                    `Sqlite` are IdempotencyStore and SqliteIdempotencyStore with one function per
--                    method; `Wait` is the loop of `reserve` around its condition variable; `Protocol` is
--                    the use that requests make of a durable store, with crashes and restarts;
--                    `Equivalence` compares the two stores.
--   RateLimit        rate_limit_bucket.py: `check_sqlite`, `check_memory`, `sweep_idle`
--   Exceptions       third-party exceptions by class name and text; the tests on them in tron_client.py
--   Sanctions, Risk  sanctions.py and risk.py: `load`, each check, `assess_risk`, `should_block`
--   TronClient       tron_client.py: `with_retry`, the energy price and its cache, fee limits, balances
--   Wallets          wallet_pool.py and wallet.py: `resolve`, `auto_pick_max_usdt`, `send_usdt`
--   Models           models.py: the validation of SendRequest, and its amount in micro-USDT
--   Audit            audit.py: `write` is `record` up to the durable file and its failure flag, and
--                    `Record` the whole of it, with the rows of webhooks and alerts that it adds
--   Send             routes.py: `Send.Handler` has `_send_impl` stage by stage over any `Store`
--   Endpoints        routes.py: `balance` and `wallets_endpoint` after the token check
--   Receipts         receipt_poller.py: `classify_receipt`, `poll_one`, `tick` and the table tx_status
--   Deliveries       the delivery table and the worker that webhooks.py and alerts.py both have, over what
--                    is delivered; `Steps` puts calls and turns of the worker in sequence
--   Webhooks         webhooks.py: `sign_payload`, `verify_signature`, `enqueue_event_for_delivery`
--   Alerts           alerts.py: the rules, the quiet hours, `format_message`, `notify_event`
--   Tokens           tokens.py: scopes, `create`, `revoke`, `verify`; `Access` is security.py's
--                    `_verify_with_scope` over the store that it imports
--   Http             server.py, net.py and the endpoint of routes.py: a request to `/send` from the
--                    middleware to its status
--   Keystore         encrypted_keystore.py: `load_keystore`, `save_keystore` and the edits of a keystore, over
--                    the document that the file decodes to
--   Startup          startup_check.py: `run_startup_check`
--   Reports          reporting.py: `aggregate_period`, the sanctions hits, `sparkline_series`
--
-- How state and time are modelled. Each object is a record, each method a function from the state
-- to its result and the new state. Clock readings, replies of the node, of web services and of the
-- disk are arguments, so a theorem holds for whatever they say. What the code raises is a value.
-- Amounts are whole micro-USDT and SUN, times whole seconds, and the tokens of the rate limiter
-- whole fractions of a token; nothing in the code wraps around. A wait on the condition variable
-- is an entry of a list that says how it ended and what state it found. The retry loop runs on
-- fuel, three attempts as in the code; the digits of a number are counted on a fuel of the number
-- itself, which has fewer; and the loop of the SQLite `reserve` around a lost race runs on one
-- pass, which nothing can take under the lock.
--
-- Texts that are taken apart or built are lists of code points, other texts are strings. Where a
-- result goes to the caller, its HTTP status is modelled and its wording is not.
--
-- Not modelled: logging and metrics; exceptions that are no `Exception`, such as an interrupt;
-- float rounding; the threads themselves. Python's 28-digit decimal context is modelled where an
-- amount is converted to micro-USDT, and nowhere else. Base58 decoding, signing, HMAC, scrypt,
-- AES-GCM, JSON, the node and SQLite are third-party: their results are arguments, and SQLite's
-- statements are taken to be atomic and durable. The database may raise in each call that
-- `_send_impl` makes of its store, before the statement or when it is committed, and in the write
-- that marks a delivery as delivered; its other errors are left out. `_send_impl` is over the
-- audit log alone: the webhooks and alerts of its records change nothing that it reads. The
-- endpoints beside `/send`, `/balance` and `/wallets`, CSV and XLSX files, the key providers, the
-- passphrase prompt of the keystore, the configuration, the command line and the user interface
-- are not modelled.
pub mod Prelude
pub mod Idempotency
pub mod RateLimit
pub mod Exceptions
pub mod Sanctions
pub mod Risk
pub mod TronClient
pub mod Wallets
pub mod Models
pub mod Audit
pub mod Deliveries
pub mod Endpoints
pub mod Webhooks
pub mod Alerts
pub mod Tokens
pub mod Send
pub mod Receipts
pub mod Http
pub mod Reports
pub mod Keystore
pub mod Startup
