-- ===== src/Stellar/CoSigner/Transport.antt =====
-- lib/stellar/cosigner-transport.ts and `expiringNonceStore` of lib/stellar/cosigner-config.ts. A
-- header that is absent or blank is `none`; the HMAC and the reading of a header as a number are
-- those of the platform and enter as `Platform`. A call reads the clock twice: `now` for the
-- timestamp, and `taken_at` in the store.
pub mod Laws
use centient.Common.{
  ℕ, ◌+◌, ◌-◌, Bool, true, false, Option, none, some, List, [], ◌∷◌, ◌++◌, ◌==◌, ltb, if◌then◌else◌,
  any, length,
}
use centient.Stellar.Units.{Text, trim}

abbrev pub replay_window_ms : ℕ
replay_window_ms = 300_000

abbrev pub min_secret_length : ℕ
min_secret_length = 32

-- `digest` of body, secret, timestamp and nonce; `number_of` is `none` for what is no finite number.
pub record Platform : Type 0 where
  pub digest : ℕ → Text → ℕ → ℕ → ℕ
  pub number_of : ℕ → Option ℕ

pub record SignedHeaders : Type 0 where
  pub signature : Option ℕ
  pub timestamp : Option ℕ
  pub nonce : Option ℕ

pub data TransportError : Type 0 where
  unusable_secret missing_header outside_window forged replayed : TransportError

-- `assertUsableSecret`
abbrev pub is_usable_secret : Text → Bool
is_usable_secret secret = if ltb (length (trim secret)) min_secret_length then false else true

-- `signCoSignRequest`; `none` when it throws.
abbrev pub sign_co_sign_request : Platform → ℕ → Text → ℕ → ℕ → Option SignedHeaders
sign_co_sign_request p body secret timestamp nonce =
    if is_usable_secret secret
    then some (record {
      signature = some (p.digest body secret timestamp nonce);
      timestamp = some timestamp;
      nonce = some nonce;
    })
    else none

-- The store's map from a nonce to when it was seen, in the order of insertion.
pub record SeenNonce : Type 0 where
  pub nonce : ℕ
  pub seen_at : ℕ

-- The loop that forgets, which stops at the first nonce that is still inside the window.
pub forget_old : ℕ → List SeenNonce → List SeenNonce
forget_old now [] = []
forget_old now (s ∷ seen) =
    let rest = forget_old now seen in
    if ltb replay_window_ms (now - s.seen_at) then rest else s ∷ seen

abbrev pub has_nonce : ℕ → List SeenNonce → Bool
has_nonce nonce seen = any (λ s. s.nonce == nonce) seen

abbrev pub take_from : ℕ → ℕ → List SeenNonce → Bool × List SeenNonce
take_from nonce now seen =
    if has_nonce nonce seen
    then (false, seen)
    else (true, seen ++ (record { nonce = nonce; seen_at = now } ∷ []))

-- `take`
unfoldable pub take_nonce : ℕ → ℕ → List SeenNonce → Bool × List SeenNonce
unfolding forget_old
take_nonce nonce now seen = take_from nonce now (forget_old now seen)

-- `Math.abs(now - sentAt)`
abbrev pub distance : ℕ → ℕ → ℕ
distance now sent_at = (now - sent_at) + (sent_at - now)

abbrev pub is_fresh : ℕ → Option ℕ → Bool
is_fresh now none = false
is_fresh now (some sent_at) = if ltb replay_window_ms (distance now sent_at) then false else true

abbrev pub spent_or_fresh : Bool × List SeenNonce → Option TransportError × List SeenNonce
spent_or_fresh (true, seen) = (none, seen)
spent_or_fresh (false, seen) = (some replayed, seen)

abbrev pub verify_headers :
    Platform
    → Text
    → ℕ
    → ℕ
    → ℕ
    → Option ℕ
    → Option ℕ
    → Option ℕ
    → List SeenNonce
    → Option TransportError × List SeenNonce
verify_headers p secret now taken_at body (some signature) (some timestamp) (some nonce) seen =
    if is_fresh now (p.number_of timestamp)
    then (if p.digest body secret timestamp nonce == signature
        then spent_or_fresh (take_nonce nonce taken_at seen)
        else (some forged, seen))
    else (some outside_window, seen)
verify_headers p secret now taken_at body _ _ _ seen = (some missing_header, seen)

-- `verifyCoSignRequest`: `none` when it returns.
unfoldable pub verify_co_sign_request :
    Platform
    → Text
    → ℕ
    → ℕ
    → ℕ
    → SignedHeaders
    → List SeenNonce
    → Option TransportError × List SeenNonce
verify_co_sign_request p secret now taken_at body headers seen =
    if is_usable_secret secret
    then verify_headers p secret now taken_at body headers.signature headers.timestamp headers.nonce
        seen
    else (some unusable_secret, seen)

-- A call of the service, with its two readings of the clock.
pub record Call : Type 0 where
  pub at : ℕ
  pub taken_at : ℕ
  pub body : ℕ
  pub headers : SignedHeaders

-- The store after a sequence of calls.
pub seen_after : Platform → Text → List Call → List SeenNonce → List SeenNonce
seen_after p secret [] seen = seen
seen_after p secret (c ∷ calls) seen =
    seen_after p secret calls
      (verify_co_sign_request p secret c.at c.taken_at c.body c.headers seen).1
