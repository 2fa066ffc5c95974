-- ===== src/TronClient.antt =====
-- skr_crypto/server/tron_client.py: retries (`Retry`), the energy price and the fee limit (`Fees`), and
-- the queries of one address (`Queries`). Amounts are in their smallest unit, SUN and micro-USDT.
pub mod Retry
pub mod Fees
pub mod Queries
mod Tests
