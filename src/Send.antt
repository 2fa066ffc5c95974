-- ===== src/Send.antt =====
-- `POST /api/v1/send`: `_send_impl` and `_validate_tron_address` of skr_crypto/server/routes.py, under
-- `_send_lock`, over any idempotency store. `Types` has the state and the failures, `Handler` the
-- code. About one call: `Effects` what each stage does to the store, `Broadcasts` what it sends,
-- `Stages`, `Fate` and `Safety` how it ends, `Open` the connection, `Screening` and `Addresses` what
-- comes before a broadcast. About several calls: `Retry` and `Serve`.
pub mod Types
pub mod Handler
pub mod Effects
pub mod Broadcasts
pub mod Fate
pub mod Stages
pub mod Open
pub mod Safety
pub mod Retry
pub mod Serve
pub mod Addresses
pub mod Screening
pub mod Sample
mod Tests
