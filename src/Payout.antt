-- ===== src/Payout.antt =====
-- The payout rail: lib/payout-*.ts, lib/reconciler.ts and the retry routes.
pub mod Db
pub mod Samples
mod Tests
pub mod Attempts
pub mod Broadcast
pub mod Claim
pub mod Settled
pub mod HandBack
pub mod Reconcile
pub mod Reconciler
pub mod Record
pub mod Cap
pub mod Reward
pub mod Revival
pub mod Cron
pub mod Service
pub mod AdminRetry
pub mod Worker
