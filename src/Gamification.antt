-- ===== src/Gamification.antt =====
-- The XP loop of lib/gamification/: streaks, tiers, and the writers that keep the labelers' XP. A
-- day key is its number of days since 1970-01-01, so keys compare as the texts do.
mod Tests
pub mod Streak
pub mod Tiers
pub mod Ledger
