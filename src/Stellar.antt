-- ===== src/Stellar.antt =====
-- The parts of lib/stellar/ that the rail's money and authority rest on.
mod Tests
pub mod Units
pub mod Verify
pub mod Ledger
pub mod Envelope
pub mod Submitter
pub mod CoSigner
