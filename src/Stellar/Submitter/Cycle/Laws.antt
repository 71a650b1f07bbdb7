-- ===== src/Stellar/Submitter/Cycle/Laws.antt =====
-- On one run of `buildCoSignSubmit` of lib/stellar/payout-submitter.ts.
use centient.Common.{
  ℕ, refl, false, Option, none, some, any, Result, ap, ◌≡◌, ok, err, arith, List, ◌∷◌, Bool-cases,
  subst, inl, inr, some-inj,
}
use centient.Payout.Db.{Db}
use centient.Payout.Attempts.{journal_open}
use centient.Stellar.Envelope.{Checked, FeeBump, bump_hash}
use centient.Stellar.Submitter.{
  Outcome, SubmitError, envelope_error, journal_refused, payment_error, unbounded_envelope,
  envelope_expiry_ms, is_definite_rejection, is_stale_sequence, result_codes,
}
use centient.Stellar.Submitter.Cycle.{
  Setup, PayoutRequest, Cycle, World, SubmitAnswer, accepted, refused, signed_envelope,
  open_attempt_of, opened_db, with_sent, after_submit, submit_opened, submit_signed,
  build_co_sign_submit, submit_multisig_payout, is_no_destination, is_no_trust, after_first,
  then_first, after_rebuild, map_rebuild, unless_unpayable, checked_request,
}

-- An error from before the submission.
abbrev pub IsEarly : SubmitError → Type 0
IsEarly (envelope_error e) = Unit {0}
IsEarly journal_refused = Unit {0}
IsEarly (payment_error unbounded_envelope retryable) = retryable ≡ false
IsEarly _ = ⊥

-- A run stops before the submission and changes nothing, or it hands one signed envelope to Horizon
-- which the journal, if there is one, holds as open.
pub data Ran (s : Setup) (request : PayoutRequest) (c : Cycle) (rail : World) (outcome : Outcome)
    (rail' : World) : Type 0 where
  stopped :
      (e : SubmitError)
      → outcome ≡ err e
      → IsEarly e
      → rail' ≡ rail
      → Ran s request c rail outcome rail'
  went :
      (bump : FeeBump) (db : Db)
      → signed_envelope s request c ≡ ok bump
      → open_attempt_of s.journal (bump_hash s.sdk bump) c (envelope_expiry_ms bump) rail.db ≡ ok db
      → after_submit s c
          (bump_hash s.sdk bump)
          (envelope_expiry_ms bump)
          c.answer
          (record { db = db; sent = bump ∷ rail.sent })
        ≡ some (outcome, rail')
      → Ran s request c rail outcome rail'

abbrev EarlyIfRefused : Result SubmitError Db → Type 0
EarlyIfRefused (err e) = IsEarly e
EarlyIfRefused (ok db) = Unit {0}

opened_db-EarlyIfRefused : (r : Option Db) → EarlyIfRefused (opened_db r)
opened_db-EarlyIfRefused none = tt
opened_db-EarlyIfRefused (some db) = tt

open_attempt_of-EarlyIfRefused :
    (journal : Option ℕ) (hash : ℕ) (c : Cycle) (expires_at : Option ℕ) (db : Db)
    → EarlyIfRefused (open_attempt_of journal hash c expires_at db)
open_attempt_of-EarlyIfRefused none hash c expires_at db = tt
open_attempt_of-EarlyIfRefused (some sid) hash c none db = refl
open_attempt_of-EarlyIfRefused (some sid) hash c (some at) db =
    opened_db-EarlyIfRefused (journal_open sid hash at c.opened_at db)

module _ (s : Setup) (request : PayoutRequest) (c : Cycle) (rail : World) (outcome : Outcome)
    (rail' : World) where
  submit_opened-Ran :
      (bump : FeeBump) (r : Result SubmitError Db)
      → signed_envelope s request c ≡ ok bump
      → open_attempt_of s.journal (bump_hash s.sdk bump) c (envelope_expiry_ms bump) rail.db ≡ r
      → EarlyIfRefused r
      → submit_opened s c bump r rail ≡ some (outcome, rail')
      → Ran s request c rail outcome rail'
  submit_opened-Ran bump (ok db) signed opened early h = went bump db signed opened h
  submit_opened-Ran bump (err e) signed opened early h = stopped e (cc) early (cc)

  submit_signed-Ran :
      (r : Checked FeeBump)
      → signed_envelope s request c ≡ r
      → submit_signed s c r rail ≡ some (outcome, rail')
      → Ran s request c rail outcome rail'
  submit_signed-Ran (ok bump) signed h =
      submit_opened-Ran bump _ signed refl
        (open_attempt_of-EarlyIfRefused s.journal (bump_hash s.sdk bump) c (envelope_expiry_ms bump)
          rail.db)
        h
  submit_signed-Ran (err e) signed h = stopped (envelope_error e) (cc) tt (cc)

  pub build_co_sign_submit-Ran :
      build_co_sign_submit s request c rail ≡ some (outcome, rail')
      → Ran s request c rail outcome rail'
  unfolding build_co_sign_submit
  build_co_sign_submit-Ran h = submit_signed-Ran (signed_envelope s request c) refl h

-- Whatever Horizon answers, the run has sent that envelope, and no other.
with_sent-sent :
    (sent : List FeeBump) (r : Option (Outcome × Db)) (outcome : Outcome) (rail' : World)
    → with_sent sent r ≡ some (outcome, rail')
    → rail'.sent ≡ sent
with_sent-sent sent none outcome rail' h = absurd (ground arith)
with_sent-sent sent (some (o, db)) outcome rail' h = ground arith

pub after_submit-sent :
    (s : Setup) (c : Cycle) (hash : ℕ) (expires_at : Option ℕ) (answer : SubmitAnswer)
    (rail : World) (outcome : Outcome) (rail' : World)
    → after_submit s c hash expires_at answer rail ≡ some (outcome, rail')
    → rail'.sent ≡ rail.sent
after_submit-sent s c hash expires_at (accepted h) rail outcome rail' e = ground arith
after_submit-sent s c hash expires_at (refused codes) rail outcome rail' e =
    elim (Bool-cases (is_definite_rejection codes)) [
      | inl definite ↦ ground arith
      | inr unknown ↦ with_sent-sent rail.sent _ outcome rail' (rw unknown at e)
    ]

-- What every run keeps, the whole submission keeps.
module _ (P : World → Type 0) where
  after_rebuild-keeps :
      (o : Outcome) (rail : World) (outcome : Outcome) (rail' : World)
      → P rail
      → ◌≡◌ {A = Outcome × World} (after_rebuild (o, rail)) (outcome, rail')
      → P rail'
  after_rebuild-keeps (ok h) rail outcome rail' p e =
      subst P (ap (λ (r : Outcome × World). r.1) e) p
  after_rebuild-keeps (err x) rail outcome rail' p e =
      subst P (ap (λ (r : Outcome × World). r.1) e) p

  map_rebuild-keeps :
      (r : Option (Outcome × World)) (outcome : Outcome) (rail' : World)
      → ((o : Outcome) (rail : World) → r ≡ some (o, rail) → P rail)
      → map_rebuild r ≡ some (outcome, rail')
      → P rail'
  map_rebuild-keeps none outcome rail' kept e = absurd (ground arith)
  map_rebuild-keeps (some (o, rail)) outcome rail' kept e =
      after_rebuild-keeps o rail outcome rail' (kept o rail refl) (some-inj e)

  after_first-keeps :
      (o : Outcome) (rail : World) (rebuild : World → Option (Outcome × World)) (outcome : Outcome)
      (rail' : World)
      → P rail
      → ((o' : Outcome) (later : World) → rebuild rail ≡ some (o', later) → P later)
      → after_first (o, rail) rebuild ≡ some (outcome, rail')
      → P rail'
  after_first-keeps (ok h) rail rebuild outcome rail' p kept e =
      subst P (ap (λ (r : Outcome × World). r.1) (some-inj e)) p
  after_first-keeps (err x) rail rebuild outcome rail' p kept same =
      elim (Bool-cases (any is_no_destination (result_codes x).operations)) [
        | inl missing ↦
            subst P (ap (λ (r : Outcome × World). r.1) (some-inj (rw missing at same))) p
        | inr there ↦ elim (Bool-cases (any is_no_trust (result_codes x).operations)) [
          | inl untrusted ↦
              subst P (ap (λ (r : Outcome × World). r.1) (some-inj (rw (there, untrusted) at same)))
                p
          | inr trusted ↦ elim (Bool-cases (is_stale_sequence (result_codes x))) [
            | inl stale ↦
                map_rebuild-keeps (rebuild rail) outcome rail' kept
                  (rw (there, trusted, stale) at same)
            | inr other ↦
                subst P
                  (ap (λ (r : Outcome × World). r.1)
                    (some-inj (rw (there, trusted, other) at same)))
                  p
          ]
        ]
      ]

  then_first-keeps :
      (r : Option (Outcome × World)) (rebuild : World → Option (Outcome × World))
      (outcome : Outcome) (rail' : World)
      → ((o : Outcome) (rail : World) → r ≡ some (o, rail) → P rail)
      → ((rail later : World) (o : Outcome) → P rail → rebuild rail ≡ some (o, later) → P later)
      → then_first r rebuild ≡ some (outcome, rail')
      → P rail'
  then_first-keeps none rebuild outcome rail' first kept e = absurd (ground arith)
  then_first-keeps (some (o, rail)) rebuild outcome rail' first kept e =
      after_first-keeps o rail rebuild outcome rail' (first o rail refl)
        (λ o' later found. kept rail later o' (first o rail refl) found) e

  unless_unpayable-keeps :
      (r : Checked (Unit {0})) (rail : World) (settled : Option (Outcome × World))
      (outcome : Outcome) (rail' : World)
      → P rail
      → (settled ≡ some (outcome, rail') → P rail')
      → unless_unpayable r rail settled ≡ some (outcome, rail')
      → P rail'
  unless_unpayable-keeps (ok _) rail settled outcome rail' p kept e = kept e
  unless_unpayable-keeps (err x) rail settled outcome rail' p kept e =
      subst P (ap (λ (r : Outcome × World). r.1) (some-inj e)) p

  pub submit_multisig_payout-keeps :
      (s : Setup) (request : PayoutRequest) (first second : Cycle) (rail : World)
      (outcome : Outcome) (rail' : World)
      → ((c : Cycle) (r r' : World) (o : Outcome) → P r → Ran s request c r o r' → P r')
      → P rail
      → submit_multisig_payout s request first second rail ≡ some (outcome, rail')
      → P rail'
  unfolding submit_multisig_payout
  submit_multisig_payout-keeps s request first second rail outcome rail' keep p e =
      unless_unpayable-keeps (checked_request s request) rail _ outcome rail' p
        (then_first-keeps (build_co_sign_submit s request first rail)
          (λ later. build_co_sign_submit s request second later) outcome rail'
          (λ o r found.
            keep first rail r o p (build_co_sign_submit-Ran s request first rail o r found))
          (λ r later o kept found.
            keep second r later o kept (build_co_sign_submit-Ran s request second r o later found)))
        e
