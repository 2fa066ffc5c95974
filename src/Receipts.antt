-- ===== src/Receipts.antt =====
-- skr_crypto/server/receipt_poller.py, on a SQLite database. `Classify` reads a node's answer, `Poller`
-- has the table tx_status and one tick. `Counting` and `Resolution` are about what one tick does to a
-- row, `Runs` about any number of ticks, and `Fairness` about which payments a tick polls. The thread
-- around `_tick` and its start and stop are left out, as is the in-memory mode, which only the tests
-- of the program use.
pub mod Classify
pub mod Poller
pub mod Counting
pub mod Resolution
pub mod Runs
pub mod Fairness
mod Tests
