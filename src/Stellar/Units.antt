-- ===== src/Stellar/Units.antt =====
-- The unit conversions of lib/stellar/config.ts and lib/stellar/payout-amount.ts. A text is the
-- list of its code points; `BigInt(text)` and `toString` of the language are read over its digits.
pub mod Decimal
pub mod Laws
use centient.Common.{
  ℕ, zero, suc, ◌+◌, ◌-◌, ◌*◌, ◌/◌, ◌%◌, Bool, true, false, Option, none, some, List, [], ◌∷◌, ◌++◌,
  ◌&&◌, ◌||◌, leb, ltb, ◌==◌, if◌then◌else◌, length,
}

abbrev pub Text : Type 0
Text = List ℕ

abbrev pub units_per_usdc : ℕ
units_per_usdc = 10_000_000

abbrev pub usdc_decimals : ℕ
usdc_decimals = 7

abbrev pub is_digit : ℕ → Bool
is_digit c = leb b'0' c && leb c b'9'

-- `BigInt(digits)`, from the value of the digits before.
unfoldable pub value_from : ℕ → Text → ℕ
value_from acc [] = acc
value_from acc (c ∷ cs) = value_from (acc * 10 + (c - b'0')) cs

-- `n.toString()` before the digits `acc`; fuel above the number is enough.
pub digits_before : ℕ → ℕ → Text → Text
digits_before zero n acc = acc
digits_before (suc f) n acc =
    let more = digits_before f (n / 10) ((b'0' + n % 10) ∷ acc) in
    if ltb n 10 then (b'0' + n) ∷ acc else more

unfoldable pub decimal : ℕ → Text
unfolding digits_before
decimal n = digits_before (suc n) n []

abbrev pub zeros : ℕ → Text
zeros zero = []
zeros (suc n) = b'0' ∷ zeros n

-- `padStart(n, "0")` and `padEnd(n, "0")`
abbrev pub pad_start : ℕ → Text → Text
pad_start n s = zeros (n - length s) ++ s

abbrev pub pad_end : ℕ → Text → Text
pad_end n s = s ++ zeros (n - length s)

-- The white space and line ends that `trim` takes.
abbrev pub is_space : ℕ → Bool
is_space c =
    c == 32
    || (leb 9 c && leb c 13)
    || (c == 160 || c == 5760 || (leb 8192 c && leb c 8202))
    || (c == 8232 || c == 8233 || c == 8239 || (c == 8287 || c == 12288 || c == 65279))

pub trim_start : Text → Text
trim_start [] = []
trim_start (c ∷ cs) = let rest = trim_start cs in if is_space c then rest else c ∷ cs

abbrev pub cons_unless_blank : ℕ → Text → Text
cons_unless_blank c [] = if is_space c then [] else c ∷ []
cons_unless_blank c (d ∷ ds) = c ∷ d ∷ ds

pub trim_end : Text → Text
trim_end [] = []
trim_end (c ∷ cs) = cons_unless_blank c (trim_end cs)

unfoldable pub trim : Text → Text
unfolding trim_start trim_end
trim s = trim_end (trim_start s)

-- `\d*`, greedy, and what is left.
pub span_digits : Text → Text × Text
span_digits [] = ([], [])
span_digits (c ∷ cs) =
    let (ds, rest) = span_digits cs in if is_digit c then (c ∷ ds, rest) else ([], c ∷ cs)

-- The groups of `/^(\d+)(?:\.(\d{1,7}))?$/`. Digits and the dot are distinct, so the greedy reading
-- is the only one.
abbrev pub match_fraction : Text → Text × Text → Option (Text × Text)
match_fraction whole ([], rest) = none
match_fraction whole (d ∷ ds, []) =
    if leb (length (d ∷ ds)) usdc_decimals then some (whole, d ∷ ds) else none
match_fraction whole (d ∷ ds, _ ∷ _) = none

abbrev pub match_amount : Text × Text → Option (Text × Text)
match_amount ([], rest) = none
match_amount (d ∷ ds, []) = some (d ∷ ds, [])
match_amount (d ∷ ds, c ∷ rest) =
    if c == b'.' then match_fraction (d ∷ ds) (span_digits rest) else none

abbrev pub units_of_groups : Option (Text × Text) → Option ℕ
units_of_groups none = none
units_of_groups (some (whole, frac)) =
    some (value_from 0 whole * units_per_usdc + value_from 0 (pad_end usdc_decimals frac))

-- `usdcToUnits`; `none` when it throws.
unfoldable pub usdc_to_units : Text → Option ℕ
unfolding trim value_from span_digits
usdc_to_units s = units_of_groups (match_amount (span_digits (trim s)))

-- `unitsToUsdcString`; a balance is never negative here.
unfoldable pub units_to_usdc_string : ℕ → Text
unfolding decimal
units_to_usdc_string units =
    decimal (units / units_per_usdc)
    ++ (b'.' ∷ pad_start usdc_decimals (decimal (units % units_per_usdc)))

abbrev pub max_stellar_stroops : ℕ
max_stellar_stroops = 9_223_372_036_854_775_807

-- `assertPayoutAmountUnits`
abbrev pub is_payable_amount : ℕ → Bool
is_payable_amount units = ltb 0 units && leb units max_stellar_stroops

-- `payoutAmountString`; `none` when it throws.
unfoldable pub payout_amount_string : ℕ → Option Text
unfolding units_to_usdc_string
payout_amount_string units =
    if is_payable_amount units then some (units_to_usdc_string units) else none
