-- ===== src/Prelude/Decimal/Laws.antt =====
-- Reading back a printed number.
use Prim.Native.Nat.{ℕ, zero, suc, ◌+◌, ◌-◌, ◌*◌, ◌/◌, ◌%◌, ◌^◌, ◌≤◌, ◌<◌}
use mathlib.Core.Path.{◌≡◌, refl, ap, ◌∙◌}
use mathlib.Core.Logic.{inl, inr}
use mathlib.Core.Option.{some}
use mathlib.Core.List.{[], ◌∷◌, ◌++◌}
use native.Mathlib.Omega.{arith}
use cryo_lab_telemetry.Prelude.Tests.{ltb, Bool-cases}
use cryo_lab_telemetry.Prelude.Texts.{Text}
use cryo_lab_telemetry.Prelude.Lists.{length, All}
use cryo_lab_telemetry.Prelude.Int.{ℤ, pos, negsuc}
use cryo_lab_telemetry.Prelude.Decimal.{
  digits, itoa, number_from, unsigned, positive, negative, atoi,
}

-- One more digit behind a text of digits.
number_from-append :
    (acc k d : ℕ) (s : Text)
    → d < 10
    → number_from acc s ≡ some k
    → number_from acc (s ++ (b'0' + d) ∷ []) ≡ some (k * 10 + d)
unfolding number_from
number_from-append acc k d [] h e = ground arith
number_from-append acc k d (c ∷ s) h e =
    ground (arith, number_from-append (acc * 10 + (c - b'0')) k d s h)

number_from-digits : (fuel n : ℕ) → n < fuel → number_from 0 (digits fuel n) ≡ some n
unfolding digits
number_from-digits zero n h = elim h [ ]
number_from-digits (suc fuel) n h = elim (Bool-cases (ltb n 10)) [
  | inl last ↦ rw last (
      number_from-append 0 0 n [] (ground arith) (unfold number_from in refl)
      ∙ ap some (omega arith))
  | inr more ↦ rw more (
      number_from-append 0 (n / 10) (n % 10) (digits fuel (n / 10)) (omega arith)
        (number_from-digits fuel (n / 10) (ground arith))
      ∙ ap some (omega arith))
]

-- A printed number begins with a digit.
digits-cons : (fuel n : ℕ) → n < fuel → (c : ℕ) × (s : Text) × (digits fuel n ≡ c ∷ s) × (b'0' ≤ c)
unfolding digits
digits-cons zero n h = elim h [ ]
digits-cons (suc fuel) n h = elim (Bool-cases (ltb n 10)) [
  | inl last ↦ (b'0' + n, [], rw last, omega arith)
  | inr more ↦
      let (c, s, e, d) = digits-cons fuel (n / 10) (ground arith) in
      (c, s ++ (b'0' + n % 10) ∷ [], rw (more, e), d)
]

unsigned-digits : (n : ℕ) → unsigned (digits (suc n) n) ≡ some n
unsigned-digits n =
    let (c, s, e, _) = digits-cons (suc n) n (omega arith) in
    rw e (rw e at (number_from-digits (suc n) n (omega arith)))

-- The integers that an int holds.
abbrev pub IsInt : ℤ → Type 0
IsInt (pos n) = n < 2 ^ 63
IsInt (negsuc n) = n < 2 ^ 63

atoi-unsigned :
    (t : Text) (c : ℕ) (s : Text) → t ≡ c ∷ s → b'0' ≤ c → atoi t ≡ positive (unsigned t)
unfolding atoi
atoi-unsigned t c s e h = rw e (ground arith)

atoi-negative : (t : Text) → atoi (b'-' ∷ t) ≡ negative (unsigned t)
unfolding atoi
atoi-negative t = refl

itoa_pos : (n : ℕ) → itoa (pos n) ≡ digits (suc n) n
unfolding itoa
itoa_pos n = refl

itoa_negsuc : (n : ℕ) → itoa (negsuc n) ≡ b'-' ∷ digits (suc (suc n)) (suc n)
unfolding itoa
itoa_negsuc n = refl

-- Every int that strconv.Itoa prints, strconv.Atoi reads back.
pub atoi-itoa : (n : ℤ) → IsInt n → atoi (itoa n) ≡ some n
atoi-itoa (pos n) h =
    let (c, s, e, d) = digits-cons (suc n) n (omega arith) in
    rw (itoa_pos n, atoi-unsigned (digits (suc n) n) c s e d, unsigned-digits n) (ground arith)
atoi-itoa (negsuc n) h =
    rw (itoa_negsuc n, atoi-negative (digits (suc (suc n)) (suc n)), unsigned-digits (suc n))
      (ground arith)

-- A text of digits is the number that it spells.
abbrev pub IsDigit : ℕ → Type 0
IsDigit c = (b'0' ≤ c) × (c ≤ b'9')

abbrev pub spelled : ℕ → Text → ℕ
spelled acc [] = acc
spelled acc (c ∷ s) = spelled (acc * 10 + (c - b'0')) s

number_from-spelled :
    (acc : ℕ) (s : Text) → All IsDigit s → number_from acc s ≡ some (spelled acc s)
unfolding number_from
number_from-spelled acc [] h = refl
number_from-spelled acc (c ∷ s) (d, h) =
    ground (arith, number_from-spelled (acc * 10 + (c - b'0')) s h)

spelled-lt : (s : Text) → All IsDigit s → length s ≤ 4 → spelled 0 s < 10_000
spelled-lt [] h l = omega arith
spelled-lt (a ∷ []) (i, h) l = omega arith
spelled-lt (a ∷ b ∷ []) (i, (j, h)) l = omega arith
spelled-lt (a ∷ b ∷ c ∷ []) (i, (j, (k, h))) l = omega arith
spelled-lt (a ∷ b ∷ c ∷ d ∷ []) (i, (j, (k, (m, h)))) l = omega arith
spelled-lt (a ∷ b ∷ c ∷ d ∷ e ∷ s) h l = absurd (omega arith)

pub atoi-digits :
    (c : ℕ) (s : Text)
    → All IsDigit (c ∷ s)
    → length (c ∷ s) ≤ 4
    → (atoi (c ∷ s) ≡ some (pos (spelled 0 (c ∷ s)))) × (spelled 0 (c ∷ s) < 10_000)
unfolding atoi
atoi-digits c s h l =
    let e = number_from-spelled 0 (c ∷ s) h in
    let small = spelled-lt (c ∷ s) h l in (ground (arith, h.0), small)
