-- ===== src/Stellar/Units/Laws.antt =====
-- On `usdcToUnits`, `unitsToUsdcString` and `payoutAmountString`.
use centient.Common.{
  ℕ, zero, suc, ◌+◌, ◌-◌, ◌*◌, ◌/◌, ◌%◌, ◌≡◌, ◌≤◌, ◌<◌, ◌↔◌, refl, ap, sym, ◌∙◌, some, [], ◌∷◌,
  ◌++◌, arith, length, All, All-map, length-append,
}
use mathlib.Core.List.{append-nil}
use centient.Stellar.Units.{
  Text, value_from, decimal, zeros, pad_start, pad_end, span_digits, match_amount, match_fraction,
  units_of_groups, usdc_to_units, units_to_usdc_string, payout_amount_string, max_stellar_stroops,
  units_per_usdc, usdc_decimals,
}
use centient.Stellar.Units.Decimal.{
  IsDigit, IsInk, value_from-decimal, decimal-IsDigit, length-decimal, value_from-zeros,
  length-zeros, All-zeros, All-append, span_digits-All, span_digits-append, trim-ink, ten_pow,
}

IsDigit-IsInk : (c : ℕ) → IsDigit c → IsInk c
IsDigit-IsInk c h = ground arith

-- The fraction of an amount, in seven digits.
abbrev fraction : ℕ → Text
fraction n = pad_start usdc_decimals (decimal n)

fraction-IsDigit : (n : ℕ) → All IsDigit (fraction n)
fraction-IsDigit n =
    All-append IsDigit (zeros (7 - length (decimal n))) (decimal n) (All-zeros _)
      (decimal-IsDigit n)

length-fraction : (n : ℕ) → n < units_per_usdc → length (fraction n) ≡ 7
length-fraction n h = omega (
  arith,
  length-append (zeros (7 - length (decimal n))) (decimal n),
  length-zeros (7 - length (decimal n)),
  length-decimal 6 n h,
)

value_from-fraction : (n : ℕ) → value_from 0 (fraction n) ≡ n
value_from-fraction n = value_from-zeros (7 - length (decimal n)) (decimal n) ∙ value_from-decimal n

pad_end-full : (s : Text) → length s ≡ 7 → pad_end usdc_decimals s ≡ s
pad_end-full s h = rw h (append-nil s)

match_fraction-full :
    (whole ds : Text) → length ds ≡ 7 → match_fraction whole (ds, []) ≡ some (whole, ds)
match_fraction-full whole [] h = absurd (omega arith)
match_fraction-full whole (d ∷ ds) h = rw h

match_amount-dot :
    (ds rest frac : Text)
    → 0 < length ds
    → match_fraction ds (span_digits rest) ≡ some (ds, frac)
    → match_amount (ds, b'.' ∷ rest) ≡ some (ds, frac)
match_amount-dot [] rest frac h e = absurd (omega arith)
match_amount-dot (d ∷ ds) rest frac h e = e

text-IsInk : (units : ℕ) → All IsInk (units_to_usdc_string units)
unfolding units_to_usdc_string
text-IsInk units =
    All-append IsInk (decimal (units / units_per_usdc)) (b'.' ∷ fraction (units % units_per_usdc))
      (All-map (decimal (units / units_per_usdc)) IsDigit-IsInk
        (decimal-IsDigit (units / units_per_usdc)))
      (
        refl,
        All-map (fraction (units % units_per_usdc)) IsDigit-IsInk
            (fraction-IsDigit (units % units_per_usdc)),
      )

decimal-nonempty : (n : ℕ) → 0 < length (decimal n)
decimal-nonempty n = (length-decimal n n (lt-ten_pow n)).0
  where
    lt-ten_pow : (k : ℕ) → k < ten_pow (suc k)
    lt-ten_pow zero = omega arith
    lt-ten_pow (suc k) = omega (arith, lt-ten_pow k)

groups_of_text :
    (whole part : ℕ)
    → part < units_per_usdc
    → match_amount (span_digits (decimal whole ++ (b'.' ∷ fraction part)))
      ≡ some (decimal whole, fraction part)
groups_of_text whole part h =
    rw (span_digits-append (decimal whole) b'.' (fraction part) (decimal-IsDigit whole) refl) (
      match_amount-dot (decimal whole) (fraction part) (fraction part) (decimal-nonempty whole) (
        rw (span_digits-All (fraction part) (fraction-IsDigit part))
          (match_fraction-full (decimal whole) (fraction part) (length-fraction part h))))

units_of_text :
    (whole part : ℕ)
    → part < units_per_usdc
    → units_of_groups (some (decimal whole, fraction part)) ≡ some (whole * units_per_usdc + part)
units_of_text whole part h =
    rw
      (
        pad_end-full (fraction part) (length-fraction part h),
        value_from-decimal whole,
        value_from-fraction part,
      )
      refl

-- Units printed as a decimal amount read back as exactly those units, at every size.
pub usdc_to_units-units_to_usdc_string :
    (units : ℕ) → usdc_to_units (units_to_usdc_string units) ≡ some units
unfolding usdc_to_units units_to_usdc_string
usdc_to_units-units_to_usdc_string units =
    ap (λ t. units_of_groups (match_amount (span_digits t)))
      (trim-ink (units_to_usdc_string units) (text-IsInk units))
    ∙ ap units_of_groups
        (groups_of_text (units / units_per_usdc) (units % units_per_usdc) (omega arith))
    ∙ units_of_text (units / units_per_usdc) (units % units_per_usdc) (omega arith)
    ∙ ap some (omega arith)

-- So two amounts print alike only if they are equal.
pub units_to_usdc_string-injective :
    (a b : ℕ) → units_to_usdc_string a ≡ units_to_usdc_string b → a ≡ b
units_to_usdc_string-injective a b e =
    let same : some a ≡ some b =
      sym (usdc_to_units-units_to_usdc_string a)
      ∙ ap usdc_to_units e
      ∙ usdc_to_units-units_to_usdc_string b in
    ground arith

-- An amount is printed for a payment exactly if it is positive and within Stellar's 64 bits, and
-- then it reads back as itself.
pub payout_amount_string_bounds :
    (units : ℕ) (s : Text)
    → (payout_amount_string units ≡ some s)
      ↔ ((0 < units) × (units ≤ max_stellar_stroops) × (s ≡ units_to_usdc_string units))
unfolding payout_amount_string
payout_amount_string_bounds units s = ground arith
