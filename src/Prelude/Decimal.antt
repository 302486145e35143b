-- ===== src/Prelude/Decimal.antt =====
-- strconv.Itoa and strconv.Atoi on a 64-bit int.
pub mod Laws
use cryo_lab_telemetry.Prelude.Tests.{ltb, leb, ◌==◌, if◌then◌else◌}
use cryo_lab_telemetry.Prelude.Texts.{Text, text}
use cryo_lab_telemetry.Prelude.Int.{ℤ, pos, negsuc}
use Prim.Native.Nat.{ℕ, zero, suc, ◌+◌, ◌-◌, ◌*◌, ◌/◌, ◌%◌, ◌^◌}
use mathlib.Core.Bool.{◌&&◌}
use mathlib.Core.Option.{Option, none, some}
use mathlib.Core.List.{List, [], ◌∷◌, ◌++◌}

-- The decimal digits of a number, on fuel.
digits : ℕ → ℕ → Text
digits zero n = []
digits (suc fuel) n =
    let rest = digits fuel (n / 10) in
    if ltb n 10 then (b'0' + n) ∷ [] else rest ++ (b'0' + n % 10) ∷ []

-- strconv.Itoa. A number has at most as many digits as it is large.
unfoldable pub itoa : ℤ → Text
unfolding digits
itoa (pos n) = digits (suc n) n
itoa (negsuc n) = b'-' ∷ digits (suc (suc n)) (suc n)

-- The number that a text of digits spells, behind the digits read so far.
number_from : ℕ → Text → Option ℕ
number_from acc [] = some acc
number_from acc (c ∷ s) =
    if leb b'0' c && leb c b'9' then number_from (acc * 10 + (c - b'0')) s else none

abbrev unsigned : Text → Option ℕ
unsigned [] = none
unsigned (c ∷ s) = number_from 0 (c ∷ s)

abbrev positive : Option ℕ → Option ℤ
positive none = none
positive (some n) = if ltb n (2 ^ 63) then some (pos n) else none

abbrev negative : Option ℕ → Option ℤ
negative none = none
negative (some zero) = some (pos 0)
negative (some (suc n)) = if ltb n (2 ^ 63) then some (negsuc n) else none

-- strconv.Atoi: one optional sign, then digits, within the range of an int64
unfoldable pub atoi : Text → Option ℤ
unfolding number_from
atoi [] = none
atoi (c ∷ s) =
    if c == b'-'
    then negative (unsigned s)
    else if c == b'+'
    then positive (unsigned s)
    else positive (unsigned (c ∷ s))
