-- ===== src/Prelude/Strconv/Laws.antt =====
-- Printing a number and parsing it again, and splitting at a byte.
use Prim.Native.Nat.{ℕ, zero, suc, ◌+◌, ◌*◌, ◌/◌, ◌%◌, ◌<◌}
use mathlib.Core.Path.{◌≡◌, refl, ap, ◌∙◌}
use mathlib.Core.Bool.{false}
use mathlib.Core.List.{[], ◌∷◌, ◌++◌}
use mathlib.Core.Option.{none, some}
use native.Mathlib.Omega.{arith}
use etcd_cloud_operator.Prelude.Tests.{◌==◌, ==_iff}
use etcd_cloud_operator.Prelude.Lists.{All}
use etcd_cloud_operator.Prelude.Strings.{Text}
use etcd_cloud_operator.Prelude.Int.{pos}
use etcd_cloud_operator.Prelude.Strconv.{
  cut, split_n, hex_value, parse_digits, int64_bound, in_range, parse_int, hex_digit, hex_digits,
  hex16,
}

-- Printing and parsing, one digit.
hex_value-hex_digit : (d : ℕ) → d < 16 → hex_value (hex_digit d) ≡ some d
unfolding hex_value hex_digit
hex_value-hex_digit d h = ground arith

hex_digit_plain :
    (d : ℕ)
    → d < 16
    → (hex_digit d == b'_' ≡ false)
      × ((hex_digit d == b'-' ≡ false) × (hex_digit d == b'+' ≡ false))
unfolding hex_digit
hex_digit_plain d h = (ground arith, (ground arith, ground arith))

-- w digits hold n.
abbrev pub Fits : ℕ → ℕ → Type 0
Fits zero n = n ≡ 0
Fits (suc w) n = Fits w (n / 16)

abbrev shift : ℕ → ℕ → ℕ
shift zero a = a
shift (suc w) a = shift w (a * 16)

shift-mul : (w a : ℕ) → shift w (a * 16) ≡ shift w a * 16
shift-mul zero a = refl
shift-mul (suc w) a = shift-mul w (a * 16)

shift-zero : (w : ℕ) → shift w 0 ≡ 0
shift-zero zero = refl
shift-zero (suc w) = shift-zero w

parse_digits-cons :
    (a c d : ℕ) (s : Text)
    → hex_value c ≡ some d
    → parse_digits a (c ∷ s) ≡ parse_digits (a * 16 + d) s
unfolding parse_digits
parse_digits-cons a c d s e = rw (e, parse_digits)

parse_digits-hex_digits :
    (w n a : ℕ) (rest : Text)
    → Fits w n
    → parse_digits a (hex_digits w n rest) ≡ parse_digits (shift w a + n) rest
unfolding hex_digits
parse_digits-hex_digits zero n a rest h = rw h (ap (λ k. parse_digits k rest) (omega arith))
parse_digits-hex_digits (suc w) n a rest h =
    parse_digits-hex_digits w (n / 16) a (hex_digit (n % 16) ∷ rest) h
    ∙ parse_digits-cons _ _ _ rest (hex_value-hex_digit (n % 16) (omega arith))
    ∙ ap (λ k. parse_digits k rest) (omega (arith, shift-mul w a))

int64-Fits : (n : ℕ) → n < int64_bound → Fits 16 n
int64-Fits n h = omega arith

-- A byte that stands nowhere in the text.
abbrev pub Lacks : ℕ → Text → Type 0
Lacks b = All (λ c. c == b ≡ false)

hex_digits-Lacks : (w n : ℕ) (rest : Text) → Lacks b'_' rest → Lacks b'_' (hex_digits w n rest)
unfolding hex_digits
hex_digits-Lacks zero n rest h = h
hex_digits-Lacks (suc w) n rest h =
    hex_digits-Lacks w (n / 16) (hex_digit (n % 16) ∷ rest)
      ((hex_digit_plain (n % 16) (omega arith)).0, h)

pub hex16-Lacks : (n : ℕ) → Lacks b'_' (hex16 (pos n))
unfolding hex16
hex16-Lacks n = hex_digits-Lacks 16 n [] tt

abbrev StartsPlain : Text → Type 0
StartsPlain [] = ⊥
StartsPlain (c ∷ s) = (c == b'-' ≡ false) × (c == b'+' ≡ false)

hex_digits-StartsPlain :
    (w n : ℕ) (rest : Text) → StartsPlain rest → StartsPlain (hex_digits w n rest)
unfolding hex_digits
hex_digits-StartsPlain zero n rest h = h
hex_digits-StartsPlain (suc w) n rest h =
    hex_digits-StartsPlain w (n / 16) (hex_digit (n % 16) ∷ rest)
      (hex_digit_plain (n % 16) (omega arith)).1

hex_digits_start : (w n : ℕ) → StartsPlain (hex_digits (suc w) n [])
unfolding hex_digits
hex_digits_start w n =
    hex_digits-StartsPlain w (n / 16) (hex_digit (n % 16) ∷ [])
      (hex_digit_plain (n % 16) (omega arith)).1

parse_int-plain : (t : Text) → StartsPlain t → parse_int t ≡ in_range false (parse_digits 0 t)
unfolding parse_int
parse_int-plain [] h = absurd h
parse_int-plain (c ∷ s) h = rw (h.1, h.0)

in_range-lt : (n : ℕ) → n < int64_bound → in_range false (some n) ≡ some (pos n)
unfolding in_range
in_range-lt n h = ground arith

parse_int-hex_digits :
    (w n : ℕ)
    → Fits (suc w) n
    → n < int64_bound
    → parse_int (hex_digits (suc w) n []) ≡ some (pos n)
parse_int-hex_digits w n fits h =
    parse_int-plain (hex_digits (suc w) n []) (hex_digits_start w n)
    ∙ ap (in_range false) (parse_digits-hex_digits (suc w) n 0 [] fits ∙ total)
    ∙ in_range-lt n h
  where
    total : parse_digits (shift (suc w) 0 + n) [] ≡ some n
    total = unfold parse_digits in ap some (omega (arith, shift-zero (suc w)))

-- Parsing what was printed, for every int64 that is not negative.
pub parse_int-hex16 : (n : ℕ) → n < int64_bound → parse_int (hex16 (pos n)) ≡ some (pos n)
unfolding hex16
parse_int-hex16 n h = parse_int-hex_digits 15 n (int64-Fits n h) h

pub cut-lacking :
    (sep : ℕ) (s rest : Text) → Lacks sep s → cut sep (s ++ sep ∷ rest) ≡ (s, some rest)
unfolding cut
cut-lacking sep [] rest h = ground (arith, ==_iff sep sep)
cut-lacking sep (c ∷ s) rest h = rw (h.0, cut-lacking sep s rest h.1)

pub cut-none : (sep : ℕ) (s : Text) → Lacks sep s → cut sep s ≡ (s, none)
unfolding cut
cut-none sep [] h = refl
cut-none sep (c ∷ s) h = rw (h.0, cut-none sep s h.1)

pub split_n-cut :
    (sep n : ℕ) (s before after : Text)
    → cut sep s ≡ (before, some after)
    → split_n sep (suc (suc n)) s ≡ before ∷ split_n sep (suc n) after
unfolding split_n
split_n-cut sep n s before after e = ground arith

pub split_n-none : (sep n : ℕ) (s : Text) → Lacks sep s → split_n sep (suc (suc n)) s ≡ s ∷ []
unfolding split_n
split_n-none sep n s h = rw (cut-none sep s h, split_n)
