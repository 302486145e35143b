-- ===== src/Store/Insert/Rows.antt =====
-- Laws of the insertion of rows that skips those whose key is there.
use mathlib.Core.List.{append_assoc}
use cryo_lab_telemetry.Prelude.{
  ◌≤◌, ◌+◌, ◌≡◌, refl, sym, ap, ◌∙◌, true, false, List, [], ◌∷◌, ◌++◌, arith, All, All-append,
  text_eq_refl, Bool-cases, inl, inr, length, length-append,
}
use cryo_lab_telemetry.Store.Data.{Row, same_key, has_key, insert_row, insert_rows, new_rows}

pub insert_rows-append :
    (xs ys rows : List Row) → insert_rows (xs ++ ys) rows ≡ insert_rows ys (insert_rows xs rows)
unfolding insert_rows
insert_rows-append [] ys rows = refl
insert_rows-append (x ∷ xs) ys rows = insert_rows-append xs ys (insert_row x rows)

pub new_rows-append :
    (xs ys rows : List Row)
    → new_rows (xs ++ ys) rows ≡ new_rows xs rows + new_rows ys (insert_rows xs rows)
unfolding insert_rows new_rows
new_rows-append [] ys rows = omega arith
new_rows-append (x ∷ xs) ys rows = omega (arith, new_rows-append xs ys (insert_row x rows))

abbrev pub HasKeys : List Row → List Row → Type 0
HasKeys xs rows = All (λ x. has_key x rows ≡ true) xs

same_key_refl : (x : Row) → same_key x x ≡ true
unfolding same_key
same_key_refl x = ground (arith, text_eq_refl x.source, text_eq_refl x.metric)

has_key-insert_row_self : (x : Row) (rows : List Row) → has_key x (insert_row x rows) ≡ true
unfolding insert_row has_key
has_key-insert_row_self x rows = ground (arith, same_key_refl x)

has_key-insert_row :
    (x y : Row) (rows : List Row) → has_key y rows ≡ true → has_key y (insert_row x rows) ≡ true
unfolding insert_row has_key
has_key-insert_row x y rows h = ground arith

has_key-insert_rows :
    (xs : List Row) (y : Row) (rows : List Row)
    → has_key y rows ≡ true
    → has_key y (insert_rows xs rows) ≡ true
unfolding insert_rows
has_key-insert_rows [] y rows h = h
has_key-insert_rows (x ∷ xs) y rows h =
    has_key-insert_rows xs y (insert_row x rows) (has_key-insert_row x y rows h)

pub insert_rows-HasKeys : (xs rows : List Row) → HasKeys xs (insert_rows xs rows)
unfolding insert_rows
insert_rows-HasKeys [] rows = tt
insert_rows-HasKeys (x ∷ xs) rows = (
  has_key-insert_rows xs x (insert_row x rows) (has_key-insert_row_self x rows),
  insert_rows-HasKeys xs (insert_row x rows),
)

insert_row_present : (x : Row) (rows : List Row) → has_key x rows ≡ true → insert_row x rows ≡ rows
unfolding insert_row
insert_row_present x rows h = rw h

insert_row_absent :
    (x : Row) (rows : List Row) → has_key x rows ≡ false → insert_row x rows ≡ x ∷ rows
unfolding insert_row
insert_row_absent x rows h = rw h

insert_rows_present : (xs rows : List Row) → HasKeys xs rows → insert_rows xs rows ≡ rows
unfolding insert_rows
insert_rows_present [] rows h = refl
insert_rows_present (x ∷ xs) rows h =
    rw (insert_row_present x rows h.0) (insert_rows_present xs rows h.1)

new_rows_present : (xs rows : List Row) → HasKeys xs rows → new_rows xs rows ≡ 0
unfolding new_rows
new_rows_present [] rows h = refl
new_rows_present (x ∷ xs) rows h =
    rw (insert_row_present x rows h.0, h.0) (omega (arith, new_rows_present xs rows h.1))

pub insert_rows-HasKeys_prefix :
    (xs ys rows : List Row) → HasKeys xs rows → HasKeys xs (insert_rows ys rows)
insert_rows-HasKeys_prefix [] ys rows h = tt
insert_rows-HasKeys_prefix (x ∷ xs) ys rows h =
    (has_key-insert_rows ys x rows h.0, insert_rows-HasKeys_prefix xs ys rows h.1)

prefix-HasKeys : (xs ys rows : List Row) → HasKeys xs (insert_rows (xs ++ ys) rows)
prefix-HasKeys xs ys rows =
    rw (insert_rows-append xs ys rows)
      (insert_rows-HasKeys_prefix xs ys (insert_rows xs rows) (insert_rows-HasKeys xs rows))

-- A first part of what is in already changes nothing, and counts no row.
pub insert_rows_prefix :
    (xs ys rows : List Row)
    → insert_rows xs (insert_rows (xs ++ ys) rows) ≡ insert_rows (xs ++ ys) rows
insert_rows_prefix xs ys rows = insert_rows_present xs _ (prefix-HasKeys xs ys rows)

pub new_rows_prefix : (xs ys rows : List Row) → new_rows xs (insert_rows (xs ++ ys) rows) ≡ 0
new_rows_prefix xs ys rows = new_rows_present xs _ (prefix-HasKeys xs ys rows)

pub insert_rows_again :
    (xs rows : List Row) → insert_rows xs (insert_rows xs rows) ≡ insert_rows xs rows
insert_rows_again xs rows = insert_rows_present xs _ (insert_rows-HasKeys xs rows)

-- No two rows have the same key.
abbrev pub IsUnique : List Row → Type 0
IsUnique [] = Unit
IsUnique (x ∷ xs) = (has_key x xs ≡ false) × IsUnique xs

-- The rows that stood there stay, as they are and in place; the new ones come before them, as many
-- as are counted, and have what all rows of the batch have; and if no key stood there twice, none
-- does afterwards.
pub insert_rows_grow :
    (P : Row → Type 0) (xs rows : List Row)
    → All P xs
    → (new : List Row) × (insert_rows xs rows ≡ new ++ rows)
      × (length new ≡ new_rows xs rows)
      × All P new
      × (IsUnique rows → IsUnique (insert_rows xs rows))
unfolding insert_rows new_rows
insert_rows_grow P [] rows h = ([], refl, refl, tt, λ u. u)
insert_rows_grow P (x ∷ xs) rows h = elim (Bool-cases (has_key x rows)) [
  | inl old ↦
      let (new, e, l, p, u) = insert_rows_grow P xs rows h.1 in
      rw (insert_row_present x rows old, old) (new, e, omega (arith, l), p, u)
  | inr fresh ↦
      let (new, e, l, p, u) = insert_rows_grow P xs (x ∷ rows) h.1 in
      rw (insert_row_absent x rows fresh, fresh)
        (
          new ++ x ∷ [],
          e ∙ sym (append_assoc new (x ∷ []) rows),
          omega (arith, l, length-append new (x ∷ [])),
          All-append P new (x ∷ []) p (h.0, tt),
          λ k. u (fresh, k),
        )
]

abbrev Anything : Row → Type 0
Anything x = Unit

anything : (l : List Row) → All Anything l
anything [] = tt
anything (x ∷ l) = (tt, anything l)

pub new_rows-le : (xs rows : List Row) → new_rows xs rows ≤ length xs
unfolding new_rows
new_rows-le [] rows = omega arith
new_rows-le (x ∷ xs) rows = ground (arith, new_rows-le xs (insert_row x rows))

pub length-insert_rows :
    (xs rows : List Row) → length (insert_rows xs rows) ≡ new_rows xs rows + length rows
length-insert_rows xs rows =
    let (new, e, l, _, _) = insert_rows_grow Anything xs rows (anything xs) in
    omega (arith, ap length e, length-append new rows, l)

pub insert_rows-IsUnique : (xs rows : List Row) → IsUnique rows → IsUnique (insert_rows xs rows)
insert_rows-IsUnique xs rows h =
    let (_, _, _, _, kept) = insert_rows_grow Anything xs rows (anything xs) in kept h
