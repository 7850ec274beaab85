-- ===== src/Prelude/Decimal.antt =====
-- Decimal numbers: the verb `%d` of `fmt` on a number that is not negative, and `strconv.Atoi`.
use Prim.Native.Nat.{ℕ, zero, suc, ◌+◌, ◌-◌, ◌*◌, ◌/◌, ◌%◌, ◌<◌}
use mathlib.Core.Path.{◌≡◌, sym, ◌∙◌, ap}
use mathlib.Core.Bool.{true, false, ◌&&◌}
use mathlib.Core.List.{[], ◌∷◌}
use mathlib.Core.Logic.{inl, inr}
use mathlib.Core.Option.{Option, none, some, some-injective}
use native.Mathlib.Omega.{arith}
use etcd_cloud_operator.Prelude.Tests.{
  ltb, leb, ◌==◌, if◌then◌else◌, Bool-cases, ltb→lt, ltb-false→le,
}
use etcd_cloud_operator.Prelude.Strings.{Text}
use etcd_cloud_operator.Prelude.Int.{ℤ}
use etcd_cloud_operator.Prelude.Strconv.{in_range}

-- The digits of n, the last of which stand in front of what is printed already; the fuel is above n.
unfoldable pub decimal_digits : ℕ → ℕ → Text → Text
decimal_digits zero n rest = rest
decimal_digits (suc fuel) n rest =
    let more = decimal_digits fuel (n / 10) ((b'0' + n % 10) ∷ rest) in
    if ltb n 10 then (b'0' + n % 10) ∷ rest else more

unfoldable pub decimal : ℕ → Text
unfolding decimal_digits
decimal n = decimal_digits (n + 1) n []

unfoldable pub decimal_value : ℕ → Option ℕ
decimal_value c = if leb b'0' c && leb c b'9' then some (c - b'0') else none

next_digit : (ℕ → Option ℕ) → ℕ → Option ℕ → Option ℕ
next_digit parse acc none = none
next_digit parse acc (some d) = parse (acc * 10 + d)

unfoldable pub parse_decimals : ℕ → Text → Option ℕ
unfolding next_digit decimal_value
parse_decimals acc [] = some acc
parse_decimals acc (c ∷ s) = next_digit (λ n. parse_decimals n s) acc (decimal_value c)

decimal_magnitude : Text → Option ℕ
unfolding parse_decimals
decimal_magnitude [] = none
decimal_magnitude (c ∷ s) = parse_decimals 0 (c ∷ s)

-- strconv.Atoi, where an int has 64 bits; none is its error.
unfoldable pub atoi : Text → Option ℤ
unfolding decimal_magnitude
atoi [] = none
atoi (c ∷ s) =
    if c == b'+'
    then in_range false (decimal_magnitude s)
    else if c == b'-'
    then in_range true (decimal_magnitude s)
    else in_range false (decimal_magnitude (c ∷ s))

value_of_digit : (d : ℕ) → d < 10 → decimal_value (b'0' + d) ≡ some d
unfolding decimal_value
value_of_digit d h = ground arith

one_digit :
    (acc n : ℕ) (rest : Text)
    → parse_decimals acc ((b'0' + n % 10) ∷ rest) ≡ parse_decimals (acc * 10 + n % 10) rest
unfolding parse_decimals next_digit
one_digit acc n rest =
    ap (next_digit (λ k. parse_decimals k rest) acc) (value_of_digit (n % 10) (omega arith))

decimals_read :
    (fuel n : ℕ) (rest : Text)
    → n < fuel
    → parse_decimals 0 (decimal_digits fuel n rest) ≡ parse_decimals n rest
unfolding decimal_digits
decimals_read zero n rest h = absurd (omega arith)
decimals_read (suc fuel) n rest h = elim (Bool-cases (ltb n 10)) [
  | inl e ↦
      let small = ltb→lt n 10 e in
      rw e (one_digit 0 n rest ∙ ap (λ k. parse_decimals k rest) (omega arith))
  | inr e ↦
      let big = ltb-false→le n 10 e in
      rw e (
        decimals_read fuel (n / 10) ((b'0' + n % 10) ∷ rest) (omega arith)
        ∙ (one_digit (n / 10) n rest ∙ ap (λ k. parse_decimals k rest) (omega arith)))
]

decimal_read : (n : ℕ) → parse_decimals 0 (decimal n) ≡ some n
unfolding decimal parse_decimals
decimal_read n = decimals_read (n + 1) n [] (omega arith)

-- What `%d` prints of different numbers is different.
pub decimal-injective : (m n : ℕ) → decimal m ≡ decimal n → m ≡ n
decimal-injective m n h =
    some-injective m n (sym (decimal_read m) ∙ (ap (parse_decimals 0) h ∙ decimal_read n))
