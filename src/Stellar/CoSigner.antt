-- ===== src/Stellar/CoSigner.antt =====
-- The policy co-signer of lib/stellar/cosigner-*.ts: how it knows its caller, where it may run, what
-- an envelope may say, and its decision on a request.
mod Tests
pub mod Transport
pub mod Request
pub mod Commitments
pub mod Service
