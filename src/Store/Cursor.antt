-- ===== src/Store/Cursor.antt =====
-- The rows of a query of server/internal/store, as the loop over rows.Next() gets them.
use mathlib.Core.List.{append-nil, append_assoc}
use cryo_lab_telemetry.Prelude.{
  inl, inr, ◌≡◌, ◌↔◌, refl, sym, ap, ◌∙◌, Option, none, some, List, [], ◌∷◌, ◌++◌, map, Bool, false,
  if◌then◌else◌, Bool-cases, Option-cases,
}

-- The rows, each as what Scan makes of it, where `none` is an error; and whether rows.Err() is an
-- error behind the last of them.
pub record Cursor {ℓ} (A : Type ℓ) : Type ℓ where
  pub rows : List (Option A)
  pub broken : Bool

-- for rows.Next() { rows.Scan(…); out = append(out, …) }
unfoldable pub collect {ℓ} : {A : Type ℓ} → List (Option A) → List A → Option (List A)
collect [] out = some out
collect (none ∷ rows) out = none
collect (some x ∷ rows) out = collect rows (out ++ x ∷ [])

-- From pool.Query, where `none` is an error, to `return out, rows.Err()`. What is returned beside an
-- error is left out.
unfoldable pub scan_rows {ℓ} : {A : Type ℓ} → Option (Cursor A) → Option (List A)
scan_rows none = none
scan_rows (some c) = if c.broken then none else collect c.rows []

-- A query that gives exactly these rows, without an error.
abbrev pub complete {ℓ} : {A : Type ℓ} → List A → Cursor A
complete l = record { rows = map some l; broken = false }

collect-eq-some {ℓ} :
    {A : Type ℓ} (rows : List (Option A)) (out all : List A)
    → collect rows out ≡ some all
    → (l : List A) × (rows ≡ map some l) × (all ≡ out ++ l)
unfolding collect
collect-eq-some [] out all e = ([], refl, cc (e, append-nil out))
collect-eq-some (none ∷ rows) out all e = cc e
collect-eq-some (some x ∷ rows) out all e =
    let (l, same, gives) = collect-eq-some rows (out ++ x ∷ []) all e in
    (x ∷ l, ap (λ r. some x ∷ r) same, gives ∙ append_assoc out (x ∷ []) l)

collect_complete {ℓ} : {A : Type ℓ} (l out : List A) → collect (map some l) out ≡ some (out ++ l)
unfolding collect
collect_complete [] out = ap some (sym (append-nil out))
collect_complete (x ∷ l) out =
    collect_complete l (out ++ x ∷ []) ∙ ap some (append_assoc out (x ∷ []) l)

scan_rows-complete {ℓ} : {A : Type ℓ} (out : List A) → scan_rows (some (complete out)) ≡ some out
unfolding scan_rows
scan_rows-complete out = collect_complete out []

-- Complete queries with the same rows have the same list.
pub complete_same {ℓ} : {A : Type ℓ} (l m : List A) → some (complete m) ≡ some (complete l) → l ≡ m
unfolding scan_rows
complete_same l m e = cc (ap scan_rows e, scan_rows-complete l, scan_rows-complete m)

scan_rows-eq-some {ℓ} :
    {A : Type ℓ} (c : Cursor A) (out : List A) → scan_rows (some c) ≡ some out → c ≡ complete out
unfolding scan_rows
scan_rows-eq-some c out e = elim (Bool-cases c.broken) [
  | inl bad ↦ cc (rw bad at e)
  | inr good ↦
      let (l, rows, all) = collect-eq-some c.rows [] out (rw good at e) in
      let same = rows ∙ ap (map some) (sym all) in λ i. record { rows = same i; broken = good i }
]

-- The rows are returned exactly where the query, each Scan and the end were without an error, and
-- then all of them, in order.
pub scan_rows_iff {ℓ} :
    {A : Type ℓ} (c : Option (Cursor A)) (out : List A)
    → (scan_rows c ≡ some out) ↔ (c ≡ some (complete out))
unfolding scan_rows
scan_rows_iff c out = (
  λ e. elim (Option-cases c) [
    | inl lost ↦ cc (rw lost at e)
    | inr (d, got) ↦ got ∙ ap some (scan_rows-eq-some d out (rw got at e))
  ],
  λ e. ap scan_rows e ∙ scan_rows-complete out,
)
