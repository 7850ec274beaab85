-- ===== src/Prelude/Strconv.antt =====
-- What the code uses of `strings`, `strconv` and the `%016x` verb of `fmt`: SplitN on one byte,
-- HasSuffix, ParseInt in base 16 at 64 bits, and hexadecimal printing.
pub mod Laws
use Prim.Native.Nat.{ℕ, zero, suc, ◌+◌, ◌-◌, ◌*◌, ◌/◌, ◌%◌, ◌^◌, ◌<◌}
use mathlib.Core.Path.{◌≡◌, refl, ap, ◌∙◌}
use mathlib.Core.Bool.{Bool, true, false, ◌&&◌, ◌||◌}
use mathlib.Core.List.{List, [], ◌∷◌, ◌++◌, reverse}
use mathlib.Core.Option.{Option, none, some}
use native.Mathlib.Omega.{arith}
use etcd_cloud_operator.Prelude.Tests.{ltb, leb, ◌==◌, ==_iff, if◌then◌else◌}
use etcd_cloud_operator.Prelude.Lists.{All}
use etcd_cloud_operator.Prelude.Strings.{Text}
use etcd_cloud_operator.Prelude.Int.{ℤ, pos, negsuc}

-- What stands before the first separator, and what stands behind it, if there is one.
unfoldable pub cut : ℕ → Text → Text × Option Text
cut sep [] = ([], none)
cut sep (c ∷ s) =
    let (before, after) = cut sep s in if c == sep then ([], some s) else (c ∷ before, after)

-- strings.SplitN(s, sep, n) for n > 0: at most n pieces, the last of which is what is left.
unfoldable pub split_n : ℕ → ℕ → Text → List Text
split_n sep zero s = []
split_n sep (suc zero) s = s ∷ []
split_n sep (suc (suc n)) s = elim (cut sep s).1 [
  | none ↦ s ∷ []
  | some rest ↦ (cut sep s).0 ∷ split_n sep (suc n) rest
]

unfoldable pub has_prefix : Text → Text → Bool
has_prefix s [] = true
has_prefix [] (b ∷ p) = false
has_prefix (a ∷ s) (b ∷ p) = (a == b) && has_prefix s p

-- strings.HasSuffix
unfoldable pub has_suffix : Text → Text → Bool
has_suffix s suffix = has_prefix (reverse s) (reverse suffix)

-- strings.Contains
unfoldable pub contains : Text → Text → Bool
unfolding has_prefix
contains [] sub = has_prefix [] sub
contains (c ∷ s) sub = has_prefix (c ∷ s) sub || contains s sub

onto_head : ℕ → List Text → List Text
onto_head c [] = (c ∷ []) ∷ []
onto_head c (piece ∷ pieces) = (c ∷ piece) ∷ pieces

-- strings.Split on one byte: always one piece at least.
unfoldable pub split : ℕ → Text → List Text
unfolding onto_head
split sep [] = [] ∷ []
split sep (c ∷ s) = if c == sep then [] ∷ split sep s else onto_head c (split sep s)

-- strings.TrimSuffix of one byte.
unfoldable pub trim_last : ℕ → Text → Text
trim_last c [] = []
trim_last c (a ∷ []) = if a == c then [] else a ∷ []
trim_last c (a ∷ b ∷ s) = a ∷ trim_last c (b ∷ s)

-- strings.TrimPrefix of one byte.
unfoldable pub trim_first : ℕ → Text → Text
trim_first c [] = []
trim_first c (a ∷ s) = if a == c then s else a ∷ s

-- strings.ToLower on ASCII.
unfoldable pub to_lower : Text → Text
to_lower [] = []
to_lower (c ∷ s) = (if leb b'A' c && leb c b'Z' then c + 32 else c) ∷ to_lower s

unfoldable pub hex_value : ℕ → Option ℕ
hex_value c =
    if leb b'0' c && leb c b'9'
    then some (c - b'0')
    else if leb b'a' c && leb c b'f'
    then some (c - b'a' + 10)
    else if leb b'A' c && leb c b'F'
    then some (c - b'A' + 10)
    else none

-- The digits of an unsigned number, most significant first, behind those read already.
unfoldable pub parse_digits : ℕ → Text → Option ℕ
parse_digits acc [] = some acc
parse_digits acc (c ∷ s) = elim (hex_value c) [
  | none ↦ none
  | some d ↦ parse_digits (acc * 16 + d) s
]

parse_magnitude : Text → Option ℕ
unfolding parse_digits
parse_magnitude [] = none
parse_magnitude (c ∷ s) = parse_digits 0 (c ∷ s)

abbrev pub int64_bound : ℕ
int64_bound = 2 ^ 63

-- The range of an int64, from the sign and the magnitude.
signed : Bool → ℕ → Option ℤ
signed false n = if ltb n int64_bound then some (pos n) else none
signed true zero = some (pos 0)
signed true (suc n) = if ltb n int64_bound then some (negsuc n) else none

unfoldable pub in_range : Bool → Option ℕ → Option ℤ
unfolding signed
in_range negative none = none
in_range negative (some n) = signed negative n

-- strconv.ParseInt(s, 16, 64); none is its error, of syntax or of range.
unfoldable pub parse_int : Text → Option ℤ
unfolding parse_magnitude in_range
parse_int [] = none
parse_int (c ∷ s) =
    if c == b'+'
    then in_range false (parse_magnitude s)
    else if c == b'-'
    then in_range true (parse_magnitude s)
    else in_range false (parse_magnitude (c ∷ s))

unfoldable pub hex_digit : ℕ → ℕ
hex_digit d = if ltb d 10 then b'0' + d else b'a' + (d - 10)

-- The last w hexadecimal digits of n, in front of what is printed already.
unfoldable pub hex_digits : ℕ → ℕ → Text → Text
unfolding hex_digit
hex_digits zero n rest = rest
hex_digits (suc w) n rest = hex_digits w (n / 16) (hex_digit (n % 16) ∷ rest)

-- `%016x` of an int64. Its magnitude has at most 16 digits, and the sign counts in the width.
unfoldable pub hex16 : ℤ → Text
unfolding hex_digits
hex16 (pos n) = hex_digits 16 n []
hex16 (negsuc n) =
    b'-' ∷ (if ltb (n + 1) (16 ^ 15) then hex_digits 15 (n + 1) [] else hex_digits 16 (n + 1) [])
