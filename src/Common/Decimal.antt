-- ===== src/Common/Decimal.antt =====
-- The C library's text formatting, as far as the sources use it: `%u` and `%d` of `snprintf`, and
-- the truncation of `snprintf` and `strncpy` to a buffer. A text is the list of its bytes, with
-- no terminating NUL.
use Prim.Native.Char.{code}
use Prim.Native.String.{String}
use Prim.Native.Nat.{ℕ, zero, suc, ◌+◌, ◌-◌, ◌*◌, ◌/◌, ◌%◌, ◌^◌, ◌≤◌, ◌<◌}
use mathlib.Core.Path.{◌≡◌, refl}
use mathlib.Core.List.{List, [], ◌∷◌, ◌++◌}
use native.Mathlib.Nat.{pow-suc}
use native.Mathlib.Omega.{arith}
use climate_node.Common.Booleans.{ltb, if◌then◌else◌}
use climate_node.Common.Lists.{length, take, length-append}

abbrev pub codes : String → List ℕ
codes String.[] = []
codes (String.◌∷◌ c s) = code c ∷ codes s

-- The decimal digits of a number, with fuel for the number of digits.
digits_fuel : ℕ → ℕ → List ℕ
digits_fuel zero n = []
digits_fuel (suc f) n =
    let front = digits_fuel f (n / 10) in
    if ltb n 10 then (b'0' + n) ∷ [] else front ++ ((b'0' + n % 10) ∷ [])

-- `%u` of a 32-bit value; ten digits are enough, as the lemmas below show.
unfoldable pub format_u32 : ℕ → List ℕ
unfolding digits_fuel
format_u32 n = digits_fuel 10 n

length-digits_fuel-le : (f n : ℕ) → length (digits_fuel f n) ≤ f
unfolding digits_fuel
length-digits_fuel-le zero n = omega arith
length-digits_fuel-le (suc f) n = ground (
  arith,
  length-digits_fuel-le f (n / 10),
  length-append (digits_fuel f (n / 10)) ((b'0' + n % 10) ∷ []),
)

pub length-format_u32-le : (n : ℕ) → length (format_u32 n) ≤ 10
unfolding format_u32
length-format_u32-le n = length-digits_fuel-le 10 n

-- What a reader makes of a run of digits.
pub parse_from : ℕ → List ℕ → ℕ
parse_from acc [] = acc
parse_from acc (d ∷ ds) = parse_from (acc * 10 + (d - b'0')) ds

parse_from-append :
    (acc : ℕ) (xs : List ℕ) (d : ℕ)
    → parse_from acc (xs ++ (d ∷ [])) ≡ parse_from acc xs * 10 + (d - b'0')
unfolding parse_from
parse_from-append acc [] d = refl
parse_from-append acc (x ∷ xs) d = parse_from-append (acc * 10 + (x - b'0')) xs d

-- The digits read back as the number when the fuel covers it.
parse_from-digits_fuel : (f n : ℕ) → n < 10 ^ f → parse_from 0 (digits_fuel f n) ≡ n
unfolding parse_from digits_fuel
parse_from-digits_fuel zero n h = omega arith
parse_from-digits_fuel (suc f) n h =
    let h' : n < 10 ^ f * 10 = rw (pow-suc 10 f) at h in
    ground (
      arith,
      parse_from-digits_fuel f (n / 10) (omega arith),
      parse_from-append 0 (digits_fuel f (n / 10)) (b'0' + n % 10),
    )

-- A property of every element.
abbrev pub All {ℓ κ} : {A : Type ℓ} → (A → Type κ) → List A → Type κ
All P [] = Unit
All P (x ∷ xs) = P x × All P xs

pub All-append {ℓ κ} :
    {A : Type ℓ} (P : A → Type κ) (xs ys : List A) → All P xs → All P ys → All P (xs ++ ys)
All-append P [] ys p q = q
All-append P (x ∷ xs) ys p q = (p.0, All-append P xs ys p.1 q)

abbrev pub IsDigit : ℕ → Type 0
IsDigit c = (b'0' ≤ c) × (c ≤ b'9')

All-digits_fuel : (f n : ℕ) → All IsDigit (digits_fuel f n)
unfolding digits_fuel
All-digits_fuel zero n = tt
All-digits_fuel (suc f) n = ground (
  arith,
  All-append IsDigit (digits_fuel f (n / 10)) ((b'0' + n % 10) ∷ []) (All-digits_fuel f (n / 10))
      (omega arith),
)

pub All-format_u32 : (n : ℕ) → All IsDigit (format_u32 n)
unfolding format_u32
All-format_u32 n = All-digits_fuel 10 n

-- The content of a zeroed buffer of `size` bytes after `snprintf(buf, size, …)` or
-- `strncpy(buf, …, size - 1)`: the text cut before the terminating NUL.
abbrev pub bounded : ℕ → List ℕ → List ℕ
bounded size text = take (size - 1) text
