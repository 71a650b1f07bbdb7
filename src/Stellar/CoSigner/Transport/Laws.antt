-- ===== src/Stellar/CoSigner/Transport/Laws.antt =====
-- On the replay guard of lib/stellar/cosigner-transport.ts.
use centient.Common.{
  ℕ, ◌+◌, ◌-◌, ◌≤◌, ◌<◌, ◌≡◌, ◌≢◌, ◌⊎◌, inl, inr, refl, Bool, true, false, Option, none, some, List,
  [], ◌∷◌, ◌++◌, ◌==◌, ltb, ==_refl, arith, Bool-cases,
}
use centient.Stellar.Units.{Text}
use centient.Stellar.CoSigner.Transport.{
  replay_window_ms, Platform, SignedHeaders, SeenNonce, forget_old, has_nonce, take_from,
  take_nonce, is_fresh, verify_headers, verify_co_sign_request, is_usable_secret, spent_or_fresh,
  Call, seen_after,
}

-- The store holds the nonce, seen at that time.
abbrev Holds : ℕ → ℕ → List SeenNonce → Type 0
Holds nonce at [] = ⊥
Holds nonce at (s ∷ seen) = ((s.nonce ≡ nonce) × (s.seen_at ≡ at)) ⊎ Holds nonce at seen

Holds-append :
    (nonce at : ℕ) (xs ys : List SeenNonce) → Holds nonce at xs → Holds nonce at (xs ++ ys)
Holds-append nonce at [] ys h = absurd h
Holds-append nonce at (x ∷ xs) ys (inl here) = inl here
Holds-append nonce at (x ∷ xs) ys (inr later) = inr (Holds-append nonce at xs ys later)

forgotten :
    (nonce at now : ℕ) (s : SeenNonce) (seen : List SeenNonce)
    → ltb replay_window_ms (now - s.seen_at) ≡ true
    → (Holds nonce at seen → Holds nonce at (forget_old now seen) ⊎ (at + replay_window_ms < now))
    → Holds nonce at (s ∷ seen)
    → Holds nonce at (forget_old now seen) ⊎ (at + replay_window_ms < now)
forgotten nonce at now s seen old rest (inl here) = inr (ground arith)
forgotten nonce at now s seen old rest (inr later) = rest later

-- A nonce is forgotten only when it was seen more than the window ago.
Holds-forget_old :
    (nonce at now : ℕ) (seen : List SeenNonce)
    → Holds nonce at seen
    → Holds nonce at (forget_old now seen) ⊎ (at + replay_window_ms < now)
unfolding forget_old
Holds-forget_old nonce at now [] h = absurd h
Holds-forget_old nonce at now (s ∷ seen) h =
    elim (Bool-cases (ltb replay_window_ms (now - s.seen_at))) [
      | inl old ↦ rw old (forgotten nonce at now s seen old (Holds-forget_old nonce at now seen) h)
      | inr young ↦ rw young (inl h)
    ]

taken :
    (nonce at other now : ℕ) (seen : List SeenNonce)
    → Holds nonce at seen
    → Holds nonce at (take_from other now seen).1
taken nonce at other now seen h = elim (Bool-cases (has_nonce other seen)) [
  | inl spent ↦ rw spent h
  | inr unseen ↦ rw unseen (Holds-append nonce at seen _ h)
]

Holds-take_nonce :
    (nonce at other now : ℕ) (seen : List SeenNonce)
    → Holds nonce at seen
    → Holds nonce at (take_nonce other now seen).1 ⊎ (at + replay_window_ms < now)
unfolding take_nonce
Holds-take_nonce nonce at other now seen h = elim (Holds-forget_old nonce at now seen h) [
  | inl kept ↦ inl (taken nonce at other now (forget_old now seen) kept)
  | inr old ↦ inr old
]

-- The calls are in the order of time, from `from` to `to`, and so are the two readings of each.
abbrev pub InOrder : ℕ → List Call → ℕ → Type 0
InOrder from [] to = from ≤ to
InOrder from (c ∷ calls) to = (from ≤ c.at) × (c.at ≤ c.taken_at) × InOrder c.taken_at calls to

InOrder-le : (from : ℕ) (calls : List Call) (to : ℕ) → InOrder from calls to → from ≤ to
InOrder-le from [] to h = h
InOrder-le from (c ∷ calls) to (before, read, later) =
    omega (arith, InOrder-le c.taken_at calls to later)

after_take :
    (nonce at now : ℕ) (taken : Bool × List SeenNonce)
    → Holds nonce at taken.1 ⊎ (at + replay_window_ms < now)
    → Holds nonce at (spent_or_fresh taken).1 ⊎ (at + replay_window_ms < now)
after_take nonce at now (true, seen) h = h
after_take nonce at now (false, seen) h = h

module _ (p : Platform) (secret : Text) where
  Holds-verify_headers :
      (nonce at now taken_at body : ℕ) (signature timestamp used : Option ℕ) (seen : List SeenNonce)
      → Holds nonce at seen
      → Holds nonce at (verify_headers p secret now taken_at body signature timestamp used seen).1
        ⊎ (at + replay_window_ms < taken_at)
  Holds-verify_headers nonce at now taken_at body none timestamp used seen h = inl h
  Holds-verify_headers nonce at now taken_at body (some s) none used seen h = inl h
  Holds-verify_headers nonce at now taken_at body (some s) (some t) none seen h = inl h
  Holds-verify_headers nonce at now taken_at body (some s) (some t) (some n) seen h =
      elim (Bool-cases (is_fresh now (p.number_of t))) [
        | inl fresh ↦ elim (Bool-cases (p.digest body secret t n == s)) [
          | inl genuine ↦
              rw (fresh, genuine)
                (after_take nonce at taken_at (take_nonce n taken_at seen)
                  (Holds-take_nonce nonce at n taken_at seen h))
          | inr forged ↦ rw (fresh, forged) (inl h)
        ]
        | inr stale ↦ rw stale (inl h)
      ]

  Holds-verify_co_sign_request :
      (nonce at now taken_at body : ℕ) (headers : SignedHeaders) (seen : List SeenNonce)
      → Holds nonce at seen
      → Holds nonce at (verify_co_sign_request p secret now taken_at body headers seen).1
        ⊎ (at + replay_window_ms < taken_at)
  unfolding verify_co_sign_request
  Holds-verify_co_sign_request nonce at now taken_at body headers seen h =
      elim (Bool-cases (is_usable_secret secret)) [
        | inl usable ↦ rw usable (
            Holds-verify_headers nonce at now taken_at body headers.signature headers.timestamp
              headers.nonce seen h)
        | inr unusable ↦ rw unusable (inl h)
      ]

  Holds-seen_after :
      (nonce at from to : ℕ) (calls : List Call) (seen : List SeenNonce)
      → InOrder from calls to
      → Holds nonce at seen
      → Holds nonce at (seen_after p secret calls seen) ⊎ (at + replay_window_ms < to)
  unfolding seen_after
  Holds-seen_after nonce at from to [] seen order h = inl h
  Holds-seen_after nonce at from to (c ∷ calls) seen (before, read, later) h =
      elim (Holds-verify_co_sign_request nonce at c.at c.taken_at c.body c.headers seen h) [
        | inl kept ↦ Holds-seen_after nonce at c.taken_at to calls _ later kept
        | inr old ↦ inr (omega (arith, InOrder-le c.taken_at calls to later))
      ]

-- A request that carries all three headers.
abbrev pub headers_of : ℕ → ℕ → ℕ → SignedHeaders
headers_of signature timestamp nonce = record {
  signature = some signature;
  timestamp = some timestamp;
  nonce = some nonce;
}

Holds-self :
    (nonce at : ℕ) (seen : List SeenNonce)
    → Holds nonce at (seen ++ (record { nonce = nonce; seen_at = at } ∷ []))
Holds-self nonce at [] = inl (refl, refl)
Holds-self nonce at (s ∷ seen) = inr (Holds-self nonce at seen)

has_nonce-of-Holds :
    (nonce at : ℕ) (seen : List SeenNonce) → Holds nonce at seen → has_nonce nonce seen ≡ true
has_nonce-of-Holds nonce at [] h = absurd h
has_nonce-of-Holds nonce at (s ∷ seen) (inl here) = ground arith
has_nonce-of-Holds nonce at (s ∷ seen) (inr later) =
    ground (arith, has_nonce-of-Holds nonce at seen later)

module _ (p : Platform) (secret : Text) (body signature timestamp nonce now taken_at : ℕ)
    (seen seen' : List SeenNonce) where
  -- What was accepted passed every test, and its nonce was kept.
  accepted_lem :
      verify_co_sign_request p secret now taken_at body (headers_of signature timestamp nonce) seen
        ≡ (none, seen')
      → (is_usable_secret secret ≡ true)
        × (is_fresh now (p.number_of timestamp) ≡ true)
        × (p.digest body secret timestamp nonce ≡ signature)
        × (seen' ≡ forget_old taken_at seen ++ (record { nonce = nonce; seen_at = taken_at } ∷ []))
  unfolding verify_co_sign_request take_nonce
  accepted_lem h = elim (Bool-cases (has_nonce nonce (forget_old taken_at seen))) [
    | inl spent ↦ absurd (ground arith)
    | inr unseen ↦ (ground arith, ground arith, ground arith, ground arith)
  ]

stale_after :
    (sent : Option ℕ) (later : ℕ)
    → ((s : ℕ) → sent ≡ some s → s + replay_window_ms < later)
    → is_fresh later sent ≡ false
stale_after none later past = refl
stale_after (some s) later past = ground (arith, past s refl)

-- A replay meets its nonce in the store, or a timestamp that the window has passed.
refused_later :
    (p : Platform) (secret : Text) (body signature timestamp nonce taken_at later retaken_at : ℕ)
    (seen : List SeenNonce)
    → ((s : ℕ) → p.number_of timestamp ≡ some s → s + retaken_at ≤ taken_at + later)
    → later ≤ retaken_at
    → Holds nonce taken_at seen ⊎ (taken_at + replay_window_ms < later)
    → (verify_co_sign_request p secret later retaken_at body
        (headers_of signature timestamp nonce)
        seen).0
      ≢ none
unfolding verify_co_sign_request take_nonce
refused_later p secret body signature timestamp nonce taken_at later retaken_at seen behind read
      (inr old) =
    rw (stale_after (p.number_of timestamp) later (λ s number. omega (arith, behind s number)))
      (ground arith)
refused_later p secret body signature timestamp nonce taken_at later retaken_at seen behind read
      (inl kept) =
    elim (Holds-forget_old nonce taken_at retaken_at seen kept) [
      | inl held ↦
          rw (has_nonce-of-Holds nonce taken_at (forget_old retaken_at seen) held) (ground arith)
      | inr old ↦
          rw
            (stale_after (p.number_of timestamp) later (λ s number. omega (arith, behind s number)))
            (ground arith)
    ]

-- A request that was accepted is not accepted again, under whatever body, after any calls in between
-- and however long after, if its timestamp lies behind the store's reading of the clock by at least
-- the time that passes between the two readings of the replay.
pub verify_co_sign_request_no_replay :
    (p : Platform) (secret : Text)
    (body again signature timestamp nonce now taken_at later retaken_at : ℕ) (calls : List Call)
    (seen seen' : List SeenNonce)
    → verify_co_sign_request p secret now taken_at body (headers_of signature timestamp nonce) seen
      ≡ (none, seen')
    → ((s : ℕ) → p.number_of timestamp ≡ some s → s + retaken_at ≤ taken_at + later)
    → InOrder taken_at calls later
    → later ≤ retaken_at
    → (verify_co_sign_request p secret later retaken_at again
        (headers_of signature timestamp nonce)
        (seen_after p secret calls seen')).0
      ≢ none
verify_co_sign_request_no_replay p secret body again signature timestamp nonce now taken_at later
      retaken_at calls seen seen' h behind order read =
    let (_, _, _, kept) =
      accepted_lem p secret body signature timestamp nonce now taken_at seen seen' h in
    refused_later p secret again signature timestamp nonce taken_at later retaken_at _ behind read (
      Holds-seen_after p secret nonce taken_at taken_at later calls seen' order
        (rw kept (Holds-self nonce taken_at (forget_old taken_at seen))))

fresh_still :
    (later sent : ℕ)
    → later ≤ sent + replay_window_ms
    → sent ≤ later + replay_window_ms
    → is_fresh later (some sent) ≡ true
fresh_still later sent low high = ground arith

too_old :
    (taken_at retaken_at : ℕ)
    → taken_at + replay_window_ms < retaken_at
    → ltb replay_window_ms (retaken_at - taken_at) ≡ true
too_old taken_at retaken_at past = ground arith

fresh_within : (now sent : ℕ) → is_fresh now (some sent) ≡ true → sent ≤ now + replay_window_ms
fresh_within now sent fresh = ground arith

-- A request that was accepted is accepted once more, if nothing else was, as soon as the store reads
-- the clock more than a window after it took the nonce, while the timestamp is not yet a window old:
-- the store has then forgotten the nonce.
verify_co_sign_request_replay :
    (p : Platform) (secret : Text)
    (body signature timestamp nonce now taken_at later retaken_at sent : ℕ) (seen' : List SeenNonce)
    → verify_co_sign_request p secret now taken_at body (headers_of signature timestamp nonce) []
      ≡ (none, seen')
    → p.number_of timestamp ≡ some sent
    → now ≤ later
    → later ≤ sent + replay_window_ms
    → taken_at + replay_window_ms < retaken_at
    → (verify_co_sign_request p secret later retaken_at body
        (headers_of signature timestamp nonce)
        seen').0
      ≡ none
unfolding verify_co_sign_request take_nonce forget_old
verify_co_sign_request_replay p secret body signature timestamp nonce now taken_at later retaken_at
      sent seen' h n order still past =
    let (usable, fresh, genuine, kept) =
      accepted_lem p secret body signature timestamp nonce now taken_at [] seen' h in
    let again : is_fresh later (p.number_of timestamp) ≡ true =
      rw n (fresh_still later sent still (omega (arith, fresh_within now sent (rw n at fresh)))) in
    rw (usable, again, genuine, kept, ==_refl signature, too_old taken_at retaken_at past) refl

-- A request that was accepted with a timestamp ahead of the clock that the store read is accepted once
-- more when the window has passed since, if nothing else was: the store has then forgotten its nonce
-- while the timestamp is still fresh.
pub verify_co_sign_request_replay_ahead :
    (p : Platform) (secret : Text) (body signature timestamp nonce now taken_at sent : ℕ)
    (seen' : List SeenNonce)
    → verify_co_sign_request p secret now taken_at body (headers_of signature timestamp nonce) []
      ≡ (none, seen')
    → p.number_of timestamp ≡ some sent
    → now ≤ taken_at
    → taken_at < sent
    → (verify_co_sign_request p secret
        (taken_at + replay_window_ms + 1)
        (taken_at + replay_window_ms + 1)
        body
        (headers_of signature timestamp nonce)
        seen').0
      ≡ none
verify_co_sign_request_replay_ahead p secret body signature timestamp nonce now taken_at sent seen'
      h n order ahead =
    verify_co_sign_request_replay p secret body signature timestamp nonce now taken_at
      (taken_at + replay_window_ms + 1) (taken_at + replay_window_ms + 1) sent seen' h n
      (omega arith) (omega arith) (omega arith)
