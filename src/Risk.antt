-- ===== src/Risk.antt =====
-- skr_crypto/server/risk.py: the data (`Types`), each check (`Checks`), `assess_risk` and
-- `should_block` (`Assess`), the meaning of the levels (`Levels`), and the check of the sanctions list
-- once it is loaded (`Listing`).
pub mod Types
pub mod Checks
pub mod Assess
pub mod Levels
pub mod Listing
mod Tests
