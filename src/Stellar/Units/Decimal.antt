-- ===== src/Stellar/Units/Decimal.antt =====
-- On the decimal texts that lib/stellar/config.ts parses and prints.
use centient.Common.{
  ℕ, zero, suc, ◌+◌, ◌*◌, ◌/◌, ◌%◌, ◌≡◌, ◌≤◌, ◌<◌, refl, ap, true, false, List, [], ◌∷◌, ◌++◌,
  arith, ltb, length, All, Bool-cases, inl, inr,
}
use centient.Stellar.Units.{
  Text, is_digit, value_from, digits_before, decimal, zeros, trim, trim_end, is_space, span_digits,
}

abbrev pub IsDigit : ℕ → Type 0
IsDigit c = is_digit c ≡ true

-- A power of ten.
abbrev pub ten_pow : ℕ → ℕ
ten_pow zero = 1
ten_pow (suc k) = 10 * ten_pow k

digits_before-value :
    (f n : ℕ) (acc : Text) → n < f → value_from 0 (digits_before f n acc) ≡ value_from n acc
unfolding digits_before value_from
digits_before-value zero n acc h = absurd (omega arith)
digits_before-value (suc f) n acc h = elim (Bool-cases (ltb n 10)) [
  | inl small ↦ rw small (ap (λ m. value_from m acc) (omega arith))
  | inr large ↦
      rw (large, digits_before-value f (n / 10) ((b'0' + n % 10) ∷ acc) (ground arith))
        (ap (λ m. value_from m acc) (omega arith))
]

-- The value of the digits of a number.
pub value_from-decimal : (n : ℕ) → value_from 0 (decimal n) ≡ n
unfolding decimal value_from
value_from-decimal n = digits_before-value (suc n) n [] (omega arith)

digits_before-IsDigit :
    (f n : ℕ) (acc : Text) → n < f → All IsDigit acc → All IsDigit (digits_before f n acc)
unfolding digits_before
digits_before-IsDigit zero n acc h d = d
digits_before-IsDigit (suc f) n acc h d = elim (Bool-cases (ltb n 10)) [
  | inl small ↦ rw small (ground arith, d)
  | inr large ↦
      rw large
        (digits_before-IsDigit f (n / 10) ((b'0' + n % 10) ∷ acc) (ground arith) (ground arith, d))
]

pub decimal-IsDigit : (n : ℕ) → All IsDigit (decimal n)
unfolding decimal
decimal-IsDigit n = digits_before-IsDigit (suc n) n [] (omega arith) tt

digits_before-length :
    (k f n : ℕ) (acc : Text)
    → n < ten_pow (suc k)
    → n < f
    → (length acc < length (digits_before f n acc))
      × (length (digits_before f n acc) ≤ suc k + length acc)
unfolding digits_before
digits_before-length k zero n acc h g = absurd (omega arith)
digits_before-length zero (suc f) n acc h g = ground arith
digits_before-length (suc k) (suc f) n acc h g = elim (Bool-cases (ltb n 10)) [
  | inl small ↦ rw small (omega arith)
  | inr large ↦ rw large (
      omega (
        arith,
        digits_before-length k f (n / 10) ((b'0' + n % 10) ∷ acc) (omega arith) (ground arith),
      ))
]

-- A number below a power of ten has that many digits at most, and one at least.
pub length-decimal :
    (k n : ℕ) → n < ten_pow (suc k) → (0 < length (decimal n)) × (length (decimal n) ≤ suc k)
unfolding decimal
length-decimal k n h = omega (arith, digits_before-length k (suc n) n [] h (omega arith))

pub value_from-zeros : (k : ℕ) (s : Text) → value_from 0 (zeros k ++ s) ≡ value_from 0 s
unfolding value_from
value_from-zeros zero s = refl
value_from-zeros (suc k) s = value_from-zeros k s

pub length-zeros : (k : ℕ) → length (zeros k) ≡ k
length-zeros zero = refl
length-zeros (suc k) = ap suc (length-zeros k)

pub All-zeros : (k : ℕ) → All IsDigit (zeros k)
All-zeros zero = tt
All-zeros (suc k) = (refl, All-zeros k)

pub All-append {ℓ κ} :
    {A : Type ℓ} (P : A → Type κ) (xs ys : List A) → All P xs → All P ys → All P (xs ++ ys)
All-append P [] ys h k = k
All-append P (x ∷ xs) ys h k = (h.0, All-append P xs ys h.1 k)

-- The digits of a text that ends, or goes on with something else.
pub span_digits-All : (ds : Text) → All IsDigit ds → span_digits ds ≡ (ds, [])
unfolding span_digits
span_digits-All [] h = refl
span_digits-All (d ∷ ds) h = rw (h.0, span_digits-All ds h.1)

pub span_digits-append :
    (ds : Text) (c : ℕ) (rest : Text)
    → All IsDigit ds
    → is_digit c ≡ false
    → span_digits (ds ++ (c ∷ rest)) ≡ (ds, c ∷ rest)
unfolding span_digits
span_digits-append [] c rest h n = rw n
span_digits-append (d ∷ ds) c rest h n = rw (h.0, span_digits-append ds c rest h.1 n)

abbrev pub IsInk : ℕ → Type 0
IsInk c = is_space c ≡ false

trim_end-ink : (s : Text) → All IsInk s → trim_end s ≡ s
unfolding trim_end
trim_end-ink [] h = refl
trim_end-ink (c ∷ []) h = rw h.0
trim_end-ink (c ∷ (d ∷ s)) h = rw (trim_end-ink (d ∷ s) h.1)

-- A text with no white space is trimmed already.
pub trim-ink : (s : Text) → All IsInk s → trim s ≡ s
unfolding trim
trim-ink [] h = refl
trim-ink (c ∷ s) h = rw h.0 (trim_end-ink (c ∷ s) h)
