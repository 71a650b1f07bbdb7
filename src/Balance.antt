-- ===== src/Balance.antt =====
-- The two off-chain balances and their ledgers: lib/campaign-balance.ts and lib/user-balance.ts.
mod Tests
pub mod Campaign
pub mod User
pub mod Identity
pub mod Withdraw
