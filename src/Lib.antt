-- ===== src/Lib.antt =====
-- Centient's payout rail: labelers answer tasks, a campaign's budget funds their rewards, and each
-- reward is paid in USDC on Stellar, as is a labeler's own withdrawal. What the rail is for: a
-- reward is to be paid once, a debit to be returned only when nothing was paid, and no two parts of
-- the system are to send the same payment.
--
-- The parts and how they interact. A submission is debited from its campaign
-- (lib/campaign-balance.ts) and its payout queued as a job. The worker (lib/payout-worker.ts) or the
-- retry path (lib/payout-service.ts) takes the submission's claim (lib/payout-retry-claim.ts),
-- settles any envelope that an earlier payer left open (lib/payout-attempts.ts), broadcasts, and
-- records the accepted payment by a bounded write with a quarantine behind it
-- (lib/payout-broadcast.ts). The broadcast (lib/stellar/payout-submitter.ts) builds the payment and
-- the fee bump around it (lib/stellar/payout-envelope.ts, lib/stellar/multisig-payout.ts), has both
-- signed by the platform and by the co-signer, records the envelope in the journal, submits it, and
-- resolves an answer that leaves its fate unknown. The co-signer (lib/stellar/cosigner-service.ts)
-- is a service of its own: it authenticates a request, holds the envelope to it, and signs only what
-- its own reading of the tables owes (lib/stellar/cosigner-ledger.ts), within its cap. A payment
-- that was broadcast is settled on Horizon's word (lib/payout-reconcile.ts), after its envelope was
-- held to the submission (lib/stellar/payout-verify.ts). A withdrawal passes the gates of its route
-- (app/api/me/withdraw/route.ts) and moves a labeler's balance (lib/user-balance.ts). Beside the
-- money, an accepted answer earns XP, a streak and a tier (lib/gamification).
--
-- The files. Common holds the shared names, Boolean tests, lists, and tables with a primary key.
--   Payout/Db: the tables of prisma/schema.prisma that the rail uses, one record each, and the
--     database as their product. Every operation is a function on it.
--   Payout/Attempts (lib/payout-attempts.ts): journal_open, confirm_attempt, void_attempt_row,
--     settle_open_attempt.
--   Payout/Broadcast (lib/payout-broadcast.ts): attempt_write, persist_accepted_payment,
--     abandon_accepted_payment, over an explicit list of database faults.
--   Payout/Claim (lib/payout-retry-claim.ts, and claimForRetry of lib/payout-service.ts).
--   Payout/Record: the callbacks that record a payment, for the retry path and for the worker.
--   Payout/Service (lib/payout-service.ts): reprocess_payout is reprocessPayoutWithNonceSafety.
--   Payout/Worker, Payout/Worker/Withdrawal, Payout/Worker/Payout (lib/payout-worker.ts):
--     claim_next_job, process_withdrawal_job, process_submission_payout, process_job.
--   Payout/Settled, Payout/HandBack, Payout/Reconcile (lib/payout-reconcile.ts):
--     settle_confirmed_payment, repair_payout_job_tuple, hand_back_failed_payment,
--     reconcile_submission, settle_held_payment, claim_held_payment.
--   Payout/Reconciler (lib/reconciler.ts): the loop's claims, and process_withdrawal.
--   Payout/Revival (lib/payout-attempt-revival.ts): revive.
--   Payout/AdminRetry (app/api/admin/submissions/[id]/retry/route.ts): admin_retry is its handler.
--   Payout/Cron (app/api/cron/payout-retry/route.ts): cron_pass, over the rows in the order taken.
--   Payout/Reward (lib/payout.ts): pay_reward, the cap before the submitter; resolve_reward_units.
--   Payout/Cap (lib/payout-cap.ts): check_payout_cap, maybe_send_cap_alert.
--   Balance/Campaign (lib/campaign-balance.ts, lib/payout-refund.ts) and Balance/User
--     (lib/user-balance.ts).
--   Balance/Identity (lib/ban-identity.ts) and Balance/Withdraw (app/api/me/withdraw/route.ts,
--     lib/withdrawal-eligibility.ts, lib/flagged-withdrawal.ts): post_withdraw is the route's POST.
--   Stellar/Units (lib/stellar/config.ts, lib/stellar/payout-amount.ts), Stellar/Verify
--     (lib/stellar/payout-verify.ts), Stellar/Ledger (lib/stellar/cosigner-ledger.ts).
--   Stellar/Envelope (lib/stellar/payout-envelope.ts, lib/stellar/multisig-payout.ts,
--     lib/stellar/payout-amount.ts): the builders, the signatures and their checks.
--   Stellar/Submitter (lib/stellar/payout-submitter.ts): resolve_ambiguous_submit, over the rounds
--     that the loop meets; Stellar/Submitter/Cycle: build_co_sign_submit and submit_multisig_payout.
--   Stellar/CoSigner: Transport (lib/stellar/cosigner-transport.ts, the nonce store of
--     lib/stellar/cosigner-config.ts), Request (parseRequest of lib/stellar/cosigner-service.ts,
--     lib/stellar/cosigner-verify.ts, lib/stellar/cosigner-isolation.ts), Commitments and Service
--     (lib/stellar/cosigner-service.ts): handle_co_sign_request.
--   Gamification/Streak (lib/gamification/rules.ts, lib/gamification/time.ts), Gamification/Tiers
--     (lib/gamification/tiers.ts), Gamification/Ledger (lib/gamification/ledger.ts), its Quests
--     (lib/gamification/quests.ts, quest-ledger.ts, crowd.ts) and Invites
--     (lib/gamification/invites.ts): the XP that an accepted answer earns.
--   Payout/Samples and the Tests modules: concrete rows, and the theorems applied to them.
--
-- Conventions. A parameter record stands for the Stellar SDK (`Sdk`: hashing, signing and verifying)
-- and for node's crypto (`Platform`); what one run of the submission cycle meets is a `Cycle`. Days
-- are numbers of days since the first of January 1970 in Manila, and quests and stamps are numbers.
-- A request to the co-signer reads the clock three times, for its timestamp, in the nonce store and
-- under the lock (`Clock`).
-- A database transaction is one step, since it locks the rows it reads. What a call
-- meets outside the tables is an argument: Horizon's answers, the broadcast, the clock, the
-- environment and the fresh key of a created row. A call that throws returns `none`, an `err` or an
-- `Ended`, with the database as it leaves it. Identifiers, addresses, hashes and assets are numbers,
-- as the code only compares them; texts that the code parses are lists of character codes.
-- Amounts are natural numbers: the code keeps them in bigint columns whose values never go below
-- zero, and checks before it subtracts.
--
-- Bounds. attempt_write makes at most the three attempts of the source, and once its list of faults
-- is used up the database answers. The digit loop of units_to_usdc_string is on fuel, one more than
-- the number, which is at least the count of its digits. The resolution loop of an ambiguous submission is on fuel,
-- one for a round: no more rounds than the deadline has milliseconds, and two, fit before a clock
-- that advances passes it. `none` stands for a loop that used its fuel up.
--
-- Not modelled: the timers that refresh a lease while a broadcast is in flight run as separate
-- steps (heartbeat_retry_claim is the step); logs, alerts and pages; resolveTask and what follows a
-- payout; the polling loops; the start-up configuration of the signers (lib/stellar/key-custody.ts,
-- lib/stellar/cosigner-config.ts) and the HTTP client and server of the co-signer
-- (lib/stellar/cosigner-remote.ts, services/cosigner), which read the environment and the network;
-- stamps, event codes, retests and the board of the gamification, and the receipt that
-- recordAccepted returns; the user interface, sign-in, uploads and the operational scripts.
pub mod Common
pub mod Payout
pub mod Balance
pub mod Stellar
pub mod Gamification
