-- ===== src/Common/Decimal.antt =====
-- The decimal form of a natural number, as fmt's %d and strconv print it, and the number of a run
-- of digits.
use Prim.Native.Nat.{ℕ, zero, suc, ◌+◌, ◌-◌, ◌*◌, ◌/◌, ◌%◌, ◌^◌, ◌≤◌, ◌<◌}
use mathlib.Core.Path.{◌≡◌, refl}
use mathlib.Core.Bool.{Bool, true, false, ◌&&◌}
use mathlib.Core.Logic.{inl, inr}
use mathlib.Core.List.{[], ◌∷◌, ◌++◌}
use native.Mathlib.Omega.{arith}
use native.Mathlib.Nat.{pow-suc}
use plexus_controller.Common.Tests.{ltb, ◌==◌, not, if◌then◌else◌, Bool-cases}
use plexus_controller.Common.Lists.{is_nil, length, length-append, All, All-append}
use plexus_controller.Common.Strings.{Text, is_digit}

-- `fuel` bounds the number of digits; `suc n` is always enough.
decimal_fuel : ℕ → ℕ → Text
decimal_fuel zero n = []
decimal_fuel (suc fuel) n =
    let more = decimal_fuel fuel (n / 10) ++ (b'0' + n % 10) ∷ [] in
    if ltb n 10 then (b'0' + n) ∷ [] else more

unfoldable pub decimal : ℕ → Text
unfolding decimal_fuel
decimal n = decimal_fuel (suc n) n

-- The number that a run of digits stands for, after the digits of `acc`.
unfoldable pub number_from : ℕ → Text → ℕ
number_from acc [] = acc
number_from acc (c ∷ s) = number_from (acc * 10 + (c - b'0')) s

number_from-snoc :
    (acc : ℕ) (s : Text) (c : ℕ)
    → number_from acc (s ++ c ∷ []) ≡ number_from acc s * 10 + (c - b'0')
unfolding number_from
number_from-snoc acc [] c = refl
number_from-snoc acc (d ∷ s) c = number_from-snoc (acc * 10 + (d - b'0')) s c

number_from-decimal_fuel : (fuel n : ℕ) → n < fuel → number_from 0 (decimal_fuel fuel n) ≡ n
unfolding decimal_fuel number_from
number_from-decimal_fuel zero n h = absurd (omega arith)
number_from-decimal_fuel (suc fuel) n h = elim (Bool-cases (ltb n 10)) [
  | inl e ↦ rw e (omega arith)
  | inr e ↦ rw e (
      ground (
        arith,
        number_from-snoc 0 (decimal_fuel fuel (n / 10)) (b'0' + n % 10),
        number_from-decimal_fuel fuel (n / 10),
      ))
]

-- Reading back what was printed.
pub number_from-decimal : (n : ℕ) → number_from 0 (decimal n) ≡ n
unfolding decimal
number_from-decimal n = number_from-decimal_fuel (suc n) n (omega arith)

decimal_fuel-digits : (fuel n : ℕ) → All (λ c. is_digit c ≡ true) (decimal_fuel fuel n)
unfolding decimal_fuel
decimal_fuel-digits zero n = tt
decimal_fuel-digits (suc fuel) n = elim (Bool-cases (ltb n 10)) [
  | inl e ↦ rw e (ground arith, tt)
  | inr e ↦ rw e (
      All-append _ (decimal_fuel fuel (n / 10)) _ (decimal_fuel-digits fuel (n / 10))
        (ground arith, tt))
]

pub decimal-digits : (n : ℕ) → All (λ c. is_digit c ≡ true) (decimal n)
unfolding decimal
decimal-digits n = decimal_fuel-digits (suc n) n

length-decimal_fuel : (k fuel n : ℕ) → n < 10 ^ suc k → length (decimal_fuel fuel n) ≤ suc k
unfolding decimal_fuel
length-decimal_fuel k zero n h = omega arith
length-decimal_fuel zero (suc fuel) n h = ground arith
length-decimal_fuel (suc k) (suc fuel) n h = elim (Bool-cases (ltb n 10)) [
  | inl e ↦ rw e (omega arith)
  | inr e ↦ rw e (
      omega (
        arith,
        length-append (decimal_fuel fuel (n / 10)) ((b'0' + n % 10) ∷ []),
        length-decimal_fuel k fuel (n / 10) below,
      ))
]
  where
    below : n / 10 < 10 ^ suc k
    below = omega (arith, pow-suc 10 (suc k))

-- Whether a numeral of more than one digit begins with a zero.
abbrev pub has_leading_zero : Text → Bool
has_leading_zero [] = false
has_leading_zero (c ∷ s) = c == b'0' && not (is_nil s)

abbrev begins_with_zero : Text → Bool
begins_with_zero [] = true
begins_with_zero (c ∷ s) = c == b'0'

begins_with_zero-append :
    (s t : Text) → begins_with_zero s ≡ false → begins_with_zero (s ++ t) ≡ false
begins_with_zero-append [] t h = cc
begins_with_zero-append (c ∷ s) t h = h

decimal_fuel-positive :
    (fuel n : ℕ) → n < fuel → 1 ≤ n → begins_with_zero (decimal_fuel fuel n) ≡ false
unfolding decimal_fuel
decimal_fuel-positive zero n h k = absurd (omega arith)
decimal_fuel-positive (suc fuel) n h k = elim (Bool-cases (ltb n 10)) [
  | inl e ↦ rw e (ground arith)
  | inr e ↦ rw e (
      begins_with_zero-append (decimal_fuel fuel (n / 10)) _
        (decimal_fuel-positive fuel (n / 10) (ground arith) (ground arith)))
]

no_leading_zero :
    (s : Text) → begins_with_zero s ≡ false → (has_leading_zero s ≡ false) × (is_nil s ≡ false)
no_leading_zero [] h = cc
no_leading_zero (c ∷ s) h = (ground arith, refl)

-- A printed number has no leading zero, and at least one digit.
pub has_leading_zero-decimal :
    (n : ℕ) → (has_leading_zero (decimal n) ≡ false) × (is_nil (decimal n) ≡ false)
unfolding decimal decimal_fuel
has_leading_zero-decimal zero = (refl, refl)
has_leading_zero-decimal (suc n) =
    no_leading_zero (decimal (suc n))
      (decimal_fuel-positive (suc (suc n)) (suc n) (omega arith) (omega arith))

-- A number below 10 ^ (k + 1) has at most k + 1 digits.
pub length-decimal : (k n : ℕ) → n < 10 ^ suc k → length (decimal n) ≤ suc k
unfolding decimal
length-decimal k n h = length-decimal_fuel k (suc n) n h
