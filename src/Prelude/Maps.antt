-- ===== src/Prelude/Maps.antt =====
-- Go maps with string keys, as association lists in which each key stands once.
use mathlib.Core.Path.{◌≡◌, refl}
use mathlib.Core.Option.{Option, none, some}
use mathlib.Core.List.{List, [], ◌∷◌}
use native.Mathlib.Omega.{arith}
use mathlib.Core.Path.{◌∙◌}
use mathlib.Core.Logic.{inl, inr}
use mathlib.Core.Bool.{false}
use cryo_lab_telemetry.Prelude.Tests.{if◌then◌else◌, Bool-cases}
use cryo_lab_telemetry.Prelude.Texts.{Text, text_eq, text_eq_iff}

abbrev pub Map {ℓ} : Type ℓ → Type ℓ
Map V = List (Text × V)

module _ {ℓ} {V : Type ℓ} where
  -- m[key]; `none` where the key is missing
  unfoldable pub lookup : Text → Map V → Option V
  lookup key [] = none
  lookup key ((known, value) ∷ rest) = if text_eq known key then some value else lookup key rest

  -- m[key] = value
  unfoldable pub insert : Text → V → Map V → Map V
  insert key value [] = (key, value) ∷ []
  insert key value ((known, old) ∷ rest) =
      if text_eq known key then (key, value) ∷ rest else (known, old) ∷ insert key value rest

  -- No key stands twice, as in any Go map.
  abbrev pub IsMap : Map V → Type ℓ
  IsMap [] = Unit
  IsMap ((k, v) ∷ m) = (lookup k m ≡ none) × IsMap m

  pub lookup-insert :
      (key asked : Text) (value : V) (entries : Map V)
      → lookup asked (insert key value entries)
        ≡ (if text_eq key asked then some value else lookup asked entries)
  unfolding lookup insert
  lookup-insert key asked value [] = refl
  lookup-insert key asked value ((known, old) ∷ rest) = ground (
    arith,
    lookup-insert key asked value rest,
    text_eq_iff known asked,
    text_eq_iff known key,
    text_eq_iff key asked,
  )

  pub lookup-insert_same :
      (key asked : Text) (value : V) (entries : Map V)
      → key ≡ asked
      → lookup asked (insert key value entries) ≡ some value
  lookup-insert_same key asked value entries e =
      lookup-insert key asked value entries ∙ rw ((text_eq_iff key asked).1 e) refl

  pub insert-IsMap : (key : Text) (value : V) (m : Map V) → IsMap m → IsMap (insert key value m)
  unfolding lookup insert
  insert-IsMap key value [] h = (refl, tt)
  insert-IsMap key value ((known, old) ∷ rest) (fresh, h) = elim (Bool-cases (text_eq known key)) [
    | inl same ↦ rw same (rw (← (text_eq_iff known key).0 same) (fresh, h))
    | inr other ↦ rw other (
      lookup-insert key known value rest ∙ rw (differs other) fresh,
      insert-IsMap key value rest h,
    )
  ]
    where
      differs : text_eq known key ≡ false → text_eq key known ≡ false
      differs e = ground (arith, text_eq_iff known key, text_eq_iff key known)
