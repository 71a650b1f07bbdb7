-- ===== src/Stellar/Submitter/Cycle/Safe.antt =====
-- On `submitMultisigPayout` of lib/stellar/payout-submitter.ts and what the network makes of the
-- envelopes that it sent.
use centient.Common.{
  ℕ, ◌+◌, ◌≤◌, ◌<◌, ◌≡◌, refl, sym, ◌∙◌, Bool, true, false, Option, none, some, ok, err, arith,
  List, [], ◌∷◌, Bool-cases, subst, inl, inr, some-inj, if◌then◌else◌, any,
}
use centient.Payout.Db.{Db}
use centient.Payout.Attempts.{tx_confirmed, tx_not_found}
use centient.Stellar.Envelope.{Sdk, FeeBump, bump_hash, Checked}
use centient.Stellar.Submitter.{
  Outcome, SubmitError, ResultCodes, PaymentCode, envelope_error, journal_refused, horizon_error,
  payment_error, unbounded_envelope, included_failed, ambiguous_submit, no_destination, no_trust,
  bad_seq, envelope_expiry_ms, is_definite_rejection, is_stale_sequence, result_codes, Unknown,
  resolve_ambiguous_submit,
}
use centient.Stellar.Submitter.Laws.{Fate, resolve_ambiguous_submit-Fate}
use centient.Stellar.Submitter.Cycle.{
  Setup, PayoutRequest, Cycle, World, SubmitAnswer, accepted, refused, signed_envelope,
  after_submit, with_sent, build_co_sign_submit, submit_multisig_payout, is_no_destination,
  is_no_trust, after_first, then_first, after_rebuild, map_rebuild, unless_unpayable,
  checked_request,
}
use centient.Stellar.Submitter.Cycle.Laws.{
  IsEarly, Ran, stopped, went, build_co_sign_submit-Ran, after_submit-sent,
}

-- What Horizon documents of its answers about one envelope, where `applied` tells which envelopes
-- the network has applied or ever will.
pub record IsHonest (applied : ℕ → Bool) (hash : ℕ) (expires_at : Option ℕ) (c : Cycle)
    : Type 0 where
  pub acceptance : (h : ℕ) → c.answer ≡ accepted h → (h ≡ hash) × (applied hash ≡ true)
  pub rejection :
      (codes : ResultCodes)
      → c.answer ≡ refused codes
      → is_definite_rejection codes ≡ true
      → applied hash ≡ false
  pub confirmation : (i : ℕ) → (c.rounds i).status ≡ some tx_confirmed → applied hash ≡ true
  pub absence :
      (e i j close_ms : ℕ)
      → expires_at ≡ some e
      → j < i
      → (c.rounds j).ledger_close_ms ≡ some close_ms
      → e < close_ms
      → (c.rounds i).status ≡ some tx_not_found
      → applied hash ≡ false

-- The test that the worker makes of what a payer threw.
abbrev pub may_retry : SubmitError → Bool
may_retry (payment_error code retryable) = retryable
may_retry _ = true

-- How many of the envelopes apply.
abbrev pub applied_count : (ℕ → Bool) → Sdk → List FeeBump → ℕ
applied_count applied sdk [] = 0
applied_count applied sdk (bump ∷ sent) =
    (if applied (bump_hash sdk bump) then 1 else 0) + applied_count applied sdk sent

-- A payout that returned paid once; one that may be retried paid nothing; any other paid at most
-- once.
abbrev pub Paid : ℕ → ℕ → Outcome → Type 0
Paid before after (ok hash) = after ≡ before + 1
Paid before after (err e) = if may_retry e then after ≡ before else after ≤ before + 1

-- The same of one envelope.
abbrev Verdict : (ℕ → Bool) → ℕ → Outcome → Type 0
Verdict applied hash (ok h) = applied hash ≡ true
Verdict applied hash (err e) = may_retry e ≡ true → applied hash ≡ false

module _ (applied : ℕ → Bool) (s : Setup) (c : Cycle) (hash : ℕ) (expires_at : Option ℕ)
    (honest : IsHonest applied hash expires_at c) where
  Fate-Verdict :
      (u : Unknown) (db : Db) (outcome : Outcome) (db' : Db)
      → u.expires_at ≡ expires_at
      → Fate u c.rounds db outcome db'
      → Verdict applied hash outcome
  Fate-Verdict u db (ok h) db' x (same, kept, i, confirmed) = honest.confirmation i confirmed
  Fate-Verdict u db (err (payment_error included_failed r)) db' x (final, i, included) = λ retry. cc
  Fate-Verdict u db (err (payment_error ambiguous_submit true)) db' x
        (i, close_ms, absent, (e, j, bound, lt, read, past)) =
      λ _. honest.absence e i j close_ms (sym x ∙ bound) lt read past absent
  Fate-Verdict u db (err (payment_error ambiguous_submit false)) db' x fate = λ retry. cc
  Fate-Verdict u db (err (payment_error unbounded_envelope r)) db' x fate = absurd fate
  Fate-Verdict u db (err (payment_error no_destination r)) db' x fate = absurd fate
  Fate-Verdict u db (err (payment_error no_trust r)) db' x fate = absurd fate
  Fate-Verdict u db (err (payment_error bad_seq r)) db' x fate = absurd fate
  Fate-Verdict u db (err (horizon_error codes)) db' x fate = absurd fate
  Fate-Verdict u db (err (envelope_error e)) db' x fate = absurd fate
  Fate-Verdict u db (err journal_refused) db' x fate = absurd fate

  with_sent-Verdict :
      (fuel : ℕ) (u : Unknown) (db : Db) (sent : List FeeBump) (r : Option (Outcome × Db))
      (outcome : Outcome) (rail' : World)
      → u.expires_at ≡ expires_at
      → resolve_ambiguous_submit fuel u c.rounds db ≡ r
      → with_sent sent r ≡ some (outcome, rail')
      → Verdict applied hash outcome
  with_sent-Verdict fuel u db sent none outcome rail' x found e = absurd (ground arith)
  with_sent-Verdict fuel u db sent (some (o, d)) outcome rail' x found e =
      let same : o ≡ outcome = cc in
      subst (Verdict applied hash) same
        (Fate-Verdict u db o d x (resolve_ambiguous_submit-Fate fuel u c.rounds db o d found))

  after_submit-Verdict :
      (answer : SubmitAnswer) (rail : World) (outcome : Outcome) (rail' : World)
      → c.answer ≡ answer
      → after_submit s c hash expires_at answer rail ≡ some (outcome, rail')
      → Verdict applied hash outcome
  after_submit-Verdict (accepted h) rail outcome rail' a e =
      let same : ◌≡◌ {A = Outcome} (ok h) outcome = cc in
      subst (Verdict applied hash) same (honest.acceptance h a).1
  after_submit-Verdict (refused codes) rail outcome rail' a e =
      elim (Bool-cases (is_definite_rejection codes)) [
        | inl definite ↦
            let same : ◌≡◌ {A = Outcome} (err (horizon_error codes)) outcome = ground arith in
            subst (Verdict applied hash) same (λ _. honest.rejection codes a definite)
        | inr unknown ↦
            with_sent-Verdict s.fuel _ rail.db rail.sent _ outcome rail' refl refl (rw unknown at e)
      ]

-- The hypothesis on the network for the envelope that a run signs, if it signs one.
abbrev pub HonestCycle : (ℕ → Bool) → Setup → PayoutRequest → Cycle → Type 0
HonestCycle applied s request c =
    (bump : FeeBump)
    → signed_envelope s request c ≡ ok bump
    → IsHonest applied (bump_hash s.sdk bump) (envelope_expiry_ms bump) c

Verdict-Paid :
    (applied : ℕ → Bool) (hash before : ℕ) (outcome : Outcome)
    → Verdict applied hash outcome
    → Paid before ((if applied hash then 1 else 0) + before) outcome
Verdict-Paid applied hash before (ok h) v = rw v (omega arith)
Verdict-Paid applied hash before (err e) v = elim (Bool-cases (may_retry e)) [
  | inl retry ↦ rw (retry, v retry) (omega arith)
  | inr final ↦ rw final (ground arith)
]

IsEarly-Paid : (before : ℕ) (e : SubmitError) → IsEarly e → Paid before before (err e)
IsEarly-Paid before (envelope_error e) h = refl
IsEarly-Paid before journal_refused h = refl
IsEarly-Paid before (payment_error unbounded_envelope retryable) h = rw h (omega arith)
IsEarly-Paid before (payment_error included_failed retryable) h = absurd h
IsEarly-Paid before (payment_error ambiguous_submit retryable) h = absurd h
IsEarly-Paid before (payment_error no_destination retryable) h = absurd h
IsEarly-Paid before (payment_error no_trust retryable) h = absurd h
IsEarly-Paid before (payment_error bad_seq retryable) h = absurd h
IsEarly-Paid before (horizon_error codes) h = absurd h

module _ (applied : ℕ → Bool) (s : Setup) (request : PayoutRequest) where
  abbrev count : World → ℕ
  count rail = applied_count applied s.sdk rail.sent

  Ran-Paid :
      (c : Cycle) (rail : World) (outcome : Outcome) (rail' : World)
      → HonestCycle applied s request c
      → Ran s request c rail outcome rail'
      → Paid (count rail) (count rail') outcome
  Ran-Paid c rail outcome rail' honest (stopped e o early kept) =
      rw (o, kept) (IsEarly-Paid (count rail) e early)
  Ran-Paid c rail outcome rail' honest (went bump db signed opened ended) =
      let sent : rail'.sent ≡ bump ∷ rail.sent =
        after_submit-sent s c (bump_hash s.sdk bump) (envelope_expiry_ms bump) c.answer _ outcome
          rail' ended in
      rw sent (
        Verdict-Paid applied (bump_hash s.sdk bump) (count rail) outcome (
          after_submit-Verdict applied s c (bump_hash s.sdk bump) (envelope_expiry_ms bump)
            (honest bump signed) c.answer _ outcome rail' refl ended))

  stale-may_retry :
      (e : SubmitError) → is_stale_sequence (result_codes e) ≡ true → may_retry e ≡ true
  stale-may_retry (horizon_error codes) h = refl
  stale-may_retry (payment_error code retryable) h = cc
  stale-may_retry (envelope_error e) h = refl
  stale-may_retry journal_refused h = refl

  after_rebuild-Paid :
      (before : ℕ) (o : Outcome) (rail : World) (outcome : Outcome) (rail' : World)
      → Paid before (count rail) o
      → ◌≡◌ {A = Outcome × World} (after_rebuild (o, rail)) (outcome, rail')
      → Paid before (count rail') outcome
  after_rebuild-Paid before (ok h) rail outcome rail' paid e =
      subst (λ (r : Outcome × World). Paid before (count r.1) r.0) e paid
  after_rebuild-Paid before (err e) rail outcome rail' paid same =
      elim (Bool-cases (is_stale_sequence (result_codes e))) [
        | inl stale ↦
            subst (λ (r : Outcome × World). Paid before (count r.1) r.0) (rw stale at same)
              (rw (stale-may_retry e stale) at paid)
        | inr other ↦
            subst (λ (r : Outcome × World). Paid before (count r.1) r.0) (rw other at same) paid
      ]

  map_rebuild-Paid :
      (before : ℕ) (r : Option (Outcome × World)) (outcome : Outcome) (rail' : World)
      → ((o : Outcome) (rail : World) → r ≡ some (o, rail) → Paid before (count rail) o)
      → map_rebuild r ≡ some (outcome, rail')
      → Paid before (count rail') outcome
  map_rebuild-Paid before none outcome rail' rebuilt e = absurd (ground arith)
  map_rebuild-Paid before (some (o, rail)) outcome rail' rebuilt e =
      after_rebuild-Paid before o rail outcome rail' (rebuilt o rail refl) (some-inj e)

  Paid-final :
      (before after : ℕ) (e : SubmitError) (code : PaymentCode)
      → Paid before after (err e)
      → Paid before after (err (payment_error code false))
  Paid-final before after e code paid = elim (Bool-cases (may_retry e)) [
    | inl retry ↦ let equal : after ≡ before = rw retry at paid in omega arith
    | inr final ↦ rw final at paid
  ]

  after_first-Paid :
      (before : ℕ) (o : Outcome) (rail : World) (rebuild : World → Option (Outcome × World))
      (outcome : Outcome) (rail' : World)
      → Paid before (count rail) o
      → ((o' : Outcome) (later : World)
          → rebuild rail ≡ some (o', later)
          → Paid (count rail) (count later) o')
      → after_first (o, rail) rebuild ≡ some (outcome, rail')
      → Paid before (count rail') outcome
  after_first-Paid before (ok h) rail rebuild outcome rail' paid rebuilt e =
      subst (λ (r : Outcome × World). Paid before (count r.1) r.0) (some-inj e) paid
  after_first-Paid before (err e) rail rebuild outcome rail' paid rebuilt same =
      elim (Bool-cases (any is_no_destination (result_codes e).operations)) [
        | inl missing ↦
            subst (λ (r : Outcome × World). Paid before (count r.1) r.0)
              (some-inj (rw missing at same)) (Paid-final before (count rail) e no_destination paid)
        | inr there ↦ elim (Bool-cases (any is_no_trust (result_codes e).operations)) [
          | inl untrusted ↦
              subst (λ (r : Outcome × World). Paid before (count r.1) r.0)
                (some-inj (rw (there, untrusted) at same))
                (Paid-final before (count rail) e no_trust paid)
          | inr trusted ↦ elim (Bool-cases (is_stale_sequence (result_codes e))) [
            | inl stale ↦
                let equal : count rail ≡ before = rw (stale-may_retry e stale) at paid in
                map_rebuild-Paid before (rebuild rail) outcome rail'
                  (λ o later found. rw (sym equal) (rebuilt o later found))
                  (rw (there, trusted, stale) at same)
            | inr other ↦
                subst (λ (r : Outcome × World). Paid before (count r.1) r.0)
                  (some-inj (rw (there, trusted, other) at same)) paid
          ]
        ]
      ]

  then_first-Paid :
      (before : ℕ) (r : Option (Outcome × World)) (rebuild : World → Option (Outcome × World))
      (outcome : Outcome) (rail' : World)
      → ((o : Outcome) (rail : World) → r ≡ some (o, rail) → Paid before (count rail) o)
      → ((rail later : World) (o : Outcome)
          → rebuild rail ≡ some (o, later)
          → Paid (count rail) (count later) o)
      → then_first r rebuild ≡ some (outcome, rail')
      → Paid before (count rail') outcome
  then_first-Paid before none rebuild outcome rail' ran rebuilt e = absurd (ground arith)
  then_first-Paid before (some (o, rail)) rebuild outcome rail' ran rebuilt e =
      after_first-Paid before o rail rebuild outcome rail' (ran o rail refl)
        (λ o' later found. rebuilt rail later o' found) e

  unless_unpayable-Paid :
      (r : Checked (Unit {0})) (rail : World) (settled : Option (Outcome × World))
      (outcome : Outcome) (rail' : World)
      → (settled ≡ some (outcome, rail') → Paid (count rail) (count rail') outcome)
      → unless_unpayable r rail settled ≡ some (outcome, rail')
      → Paid (count rail) (count rail') outcome
  unless_unpayable-Paid (ok _) rail settled outcome rail' paid e = paid e
  unless_unpayable-Paid (err e) rail settled outcome rail' paid same =
      subst (λ (r : Outcome × World). Paid (count rail) (count r.1) r.0) (some-inj same) refl

-- While Horizon's answers are honest about which envelopes the network applies, a payout that
-- returns has had exactly one of its envelopes applied; one that fails in a way that a payer
-- retries has had none applied; and any other failure has had at most one applied.
pub submit_multisig_payout-Paid :
    (applied : ℕ → Bool) (s : Setup) (request : PayoutRequest) (first second : Cycle) (rail : World)
    (outcome : Outcome) (rail' : World)
    → HonestCycle applied s request first
    → HonestCycle applied s request second
    → submit_multisig_payout s request first second rail ≡ some (outcome, rail')
    → Paid (applied_count applied s.sdk rail.sent) (applied_count applied s.sdk rail'.sent) outcome
unfolding submit_multisig_payout
submit_multisig_payout-Paid applied s request first second rail outcome rail' one two e =
    unless_unpayable-Paid applied s request (checked_request s request) rail _ outcome rail'
      (then_first-Paid applied s request _ (build_co_sign_submit s request first rail)
        (λ later. build_co_sign_submit s request second later) outcome rail'
        (λ o r found.
          Ran-Paid applied s request first rail o r one
            (build_co_sign_submit-Ran s request first rail o r found))
        (λ r later o found.
          Ran-Paid applied s request second r o later two
            (build_co_sign_submit-Ran s request second r o later found)))
      e
