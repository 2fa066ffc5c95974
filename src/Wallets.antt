-- ===== src/Wallets.antt =====
-- skr_crypto/server/wallet_pool.py (`Pool`, and `Picking` about what it answers) and
-- skr_crypto/server/wallet.py (`Signing`).
pub mod Pool
pub mod Picking
pub mod Signing
mod Tests
