-- ===== src/Prelude/Split/Laws.antt =====
-- Taking apart a text that was put together with a separator.
use Prim.Native.Nat.{ℕ}
use mathlib.Core.Path.{◌≡◌, refl, ap, ◌∙◌}
use mathlib.Core.Logic.{◌≢◌}
use mathlib.Core.Bool.{false}
use mathlib.Core.Option.{some}
use mathlib.Core.List.{List, [], ◌∷◌, ◌++◌}
use native.Mathlib.Omega.{arith}
use cryo_lab_telemetry.Prelude.Lists.{All}
use cryo_lab_telemetry.Prelude.Texts.{Text}
use cryo_lab_telemetry.Prelude.Split.{
  split_on, is_space, trim_left, trim_right, trim_space, split_two, keep_trimmed,
}

-- strings.Join(xs, sep)
abbrev pub join : ℕ → List Text → Text
join sep [] = []
join sep (x ∷ []) = x
join sep (x ∷ y ∷ ys) = x ++ sep ∷ join sep (y ∷ ys)

abbrev pub Without : ℕ → Text → Type 0
Without sep s = All (λ c. c ≢ sep) s

split_on-piece : (sep : ℕ) (x : Text) → Without sep x → split_on sep x ≡ x ∷ []
unfolding split_on
split_on-piece sep [] h = refl
split_on-piece sep (c ∷ s) (d, h) = ground (arith, split_on-piece sep s h)

split_on-append :
    (sep : ℕ) (x rest : Text)
    → Without sep x
    → split_on sep (x ++ sep ∷ rest) ≡ x ∷ split_on sep rest
unfolding split_on
split_on-append sep [] rest h = ground arith
split_on-append sep (c ∷ s) rest (d, h) = ground (arith, split_on-append sep s rest h)

-- Splitting a join gives the pieces back.
pub split_on-join :
    (sep : ℕ) (x : Text) (xs : List Text)
    → All (Without sep) (x ∷ xs)
    → split_on sep (join sep (x ∷ xs)) ≡ x ∷ xs
split_on-join sep x [] (h, _) = split_on-piece sep x h
split_on-join sep x (y ∷ ys) (h, hs) =
    split_on-append sep x (join sep (y ∷ ys)) h ∙ ap (λ r. x ∷ r) (split_on-join sep y ys hs)

pub split_two-append :
    (sep : ℕ) (x rest : Text) → Without sep x → split_two sep (x ++ sep ∷ rest) ≡ some (x, rest)
unfolding split_two
split_two-append sep [] rest h = ground arith
split_two-append sep (c ∷ s) rest (d, h) = ground (arith, split_two-append sep s rest h)

-- A text with no space at either end, and not empty.
abbrev EndsClean : ℕ → Text → Type 0
EndsClean c [] = is_space c ≡ false
EndsClean c (d ∷ s) = EndsClean d s

abbrev pub IsTrimmed : Text → Type 0
IsTrimmed [] = ⊥
IsTrimmed (c ∷ s) = (is_space c ≡ false) × EndsClean c s

trim_right-clean : (c : ℕ) (s : Text) → EndsClean c s → trim_right (c ∷ s) ≡ c ∷ s
unfolding trim_right
trim_right-clean c [] h = rw h
trim_right-clean c (d ∷ s) h = rw (trim_right-clean d s h)

pub trim_space-IsTrimmed : (t : Text) → IsTrimmed t → trim_space t ≡ t
unfolding trim_space trim_left
trim_space-IsTrimmed [] h = elim h [ ]
trim_space-IsTrimmed (c ∷ s) (h, e) = rw h (trim_right-clean c s e)

keep_trimmed-IsTrimmed : (xs : List Text) → All IsTrimmed xs → keep_trimmed xs ≡ xs
keep_trimmed-IsTrimmed [] h = refl
keep_trimmed-IsTrimmed ([] ∷ xs) (h, hs) = elim h [ ]
keep_trimmed-IsTrimmed ((c ∷ s) ∷ xs) (h, hs) =
    rw (trim_space-IsTrimmed (c ∷ s) h, keep_trimmed-IsTrimmed xs hs)

-- A list of trimmed texts without commas, written with commas between them, is read back.
pub keep_trimmed-join :
    (x : Text) (xs : List Text)
    → All (Without b',') (x ∷ xs)
    → All IsTrimmed (x ∷ xs)
    → keep_trimmed (split_on b',' (join b',' (x ∷ xs))) ≡ x ∷ xs
keep_trimmed-join x xs h k =
    ap keep_trimmed (split_on-join b',' x xs h) ∙ keep_trimmed-IsTrimmed (x ∷ xs) k

EndsClean-append : (c x d : ℕ) (s t : Text) → EndsClean d t → EndsClean c (s ++ x ∷ d ∷ t)
EndsClean-append c x d [] t h = h
EndsClean-append c x d (e ∷ s) t h = EndsClean-append e x d s t h

pub IsTrimmed-append : (x : ℕ) (s t : Text) → IsTrimmed s → IsTrimmed t → IsTrimmed (s ++ x ∷ t)
IsTrimmed-append x [] t h k = elim h [ ]
IsTrimmed-append x (c ∷ s) [] h k = elim k [ ]
IsTrimmed-append x (c ∷ s) (d ∷ t) (h, _) (_, e) = (h, EndsClean-append c x d s t e)
