-- ===== src/Store/Insert/Retry.antt =====
-- Delivery by retries: the same batch is sent until a call reports no error.
use mathlib.Core.List.{map-append}
use cryo_lab_telemetry.Prelude.{
  ℕ, zero, suc, ◌-◌, ◌≡◌, refl, sym, ap, ◌∙◌, ◌⊎◌, inl, inr, Bool, true, false, not, Option, none,
  some, List, ◌++◌, arith, leb, Bool-cases, length, take, drop, take-append-take, take-append-drop,
  take_of_length-le,
}
use cryo_lab_telemetry.Store.Data.{Reading, Row, Tables, insert_rows}
use cryo_lab_telemetry.Store.World.{World}
use cryo_lab_telemetry.Store.Insert.{Inserted, insert_readings}
use cryo_lab_telemetry.Store.Insert.Rows.{insert_rows_prefix, insert_rows_again, new_rows_prefix}
use cryo_lab_telemetry.Store.Insert.Chunks.{
  rows_of, merged, added, merged-append, insert_readings-Outcome,
}

abbrev succeeded : Option Inserted → Bool
succeeded none = false
succeeded (some out) = not out.failed

module _ (w : World) where
  open w use {State, tables, stamp}

  -- The client's loop, with `n` attempts at most: whether one succeeded.
  pub deliver : ℕ → List Reading → State → Bool × State
  deliver zero rs s = (false, s)
  deliver (suc n) rs s =
      let (out, s') = insert_readings w rs s in
      elim (succeeded out) [ true ↦ (true, s') | false ↦ deliver n rs s' ]

  merged_prefix :
      (t : Tables) (xs ys : List Reading)
      → merged w (merged w t (xs ++ ys)) xs ≡ merged w t (xs ++ ys)
  merged_prefix t xs ys =
      ap (λ (rows : List Row). record t { readings = rows })
        (rw (map-append) (insert_rows_prefix (rows_of w xs) (rows_of w ys) t.readings))

  merged_again : (t : Tables) (xs : List Reading) → merged w (merged w t xs) xs ≡ merged w t xs
  merged_again t xs =
      ap (λ (rows : List Row). record t { readings = rows })
        (insert_rows_again (rows_of w xs) t.readings)

  merged_extend :
      (t : Tables) (xs ys : List Reading)
      → merged w (merged w t xs) (xs ++ ys) ≡ merged w t (xs ++ ys)
  merged_extend t xs ys =
      sym (merged-append w (merged w t xs) xs ys)
      ∙ ap (λ (u : Tables). merged w u ys) (merged_again t xs)
      ∙ merged-append w t xs ys

  -- Two first parts of one batch, one after the other, leave what the longer one leaves.
  merged-take :
      (t : Tables) (j k : ℕ) (rs : List Reading)
      → (m : ℕ) × (merged w (merged w t (take j rs)) (take k rs) ≡ merged w t (take m rs))
  merged-take t j k rs = elim (Bool-cases (leb j k)) [
    | inl up ↦
        let cut : take j rs ++ take (k - j) (drop j rs) ≡ take k rs =
          take-append-take j (k - j) rs ∙ ap (λ (n : ℕ). take n rs) (ground arith) in
        (k, rw (← cut) (merged_extend t (take j rs) (take (k - j) (drop j rs))))
    | inr down ↦
        let cut : take k rs ++ take (j - k) (drop k rs) ≡ take j rs =
          take-append-take k (j - k) rs ∙ ap (λ (n : ℕ). take n rs) (ground arith) in
        (j, rw (← cut) (merged_prefix t (take k rs) (take (j - k) (drop k rs))))
  ]

  merged-take_all :
      (t : Tables) (j : ℕ) (rs : List Reading)
      → merged w (merged w t (take j rs)) rs ≡ merged w t rs
  merged-take_all t j rs = rw (take-append-drop j rs) at (merged_extend t (take j rs) (drop j rs))

  abbrev Delivered : Tables → List Reading → Bool × State → Type 0
  Delivered t rs r =
      ((r.0 ≡ true) × (tables r.1 ≡ merged w t rs))
      ⊎ ((k : ℕ) × (r.0 ≡ false) × (tables r.1 ≡ merged w t (take k rs)))

  deliver_from :
      (t : Tables) (n j : ℕ) (rs : List Reading) (s : State)
      → tables s ≡ merged w t (take j rs)
      → Delivered t rs (deliver n rs s)
  unfolding deliver
  deliver_from t zero j rs s e = inr (j, refl, e)
  deliver_from t (suc n) j rs s e = elim (insert_readings-Outcome w rs s) [
    | inl (r, u) ↦
        rw (r, deliver)
          (inl (refl, u ∙ ap (λ (x : Tables). merged w x rs) e ∙ merged-take_all t j rs))
    | inr (k, m, r, u, _) ↦
        let (l, f) = merged-take t j k rs in
        rw (r, deliver)
          (deliver_from t n l rs _ (u ∙ ap (λ (x : Tables). merged w x (take k rs)) e ∙ f))
  ]

  -- However often the attempts fail, and wherever they stop, the batch sent until it succeeds is
  -- in the tables as one undisturbed insertion would have put it; if no attempt succeeds, a first
  -- part of it is.
  pub deliver-Delivered :
      (n : ℕ) (rs : List Reading) (s : State)
      → ((deliver n rs s).0 ≡ true) × (tables (deliver n rs s).1 ≡ merged w (tables s) rs)
        ⊎ ((k : ℕ) × ((deliver n rs s).0 ≡ false)
            × (tables (deliver n rs s).1 ≡ merged w (tables s) (take k rs)))
  deliver-Delivered n rs s = deliver_from (tables s) n 0 rs s (unfold insert_rows in refl)

  added_prefix :
      (t : Tables) (k : ℕ) (rs : List Reading) (s : State)
      → tables s ≡ merged w t rs
      → added w (tables s) (take k rs) ≡ 0
  added_prefix t k rs s e =
      let parts : added w (merged w t (take k rs ++ drop k rs)) (take k rs) ≡ 0 =
        rw map-append
          (new_rows_prefix (rows_of w (take k rs)) (rows_of w (drop k rs)) t.readings) in
      rw e (rw (take-append-drop k rs) at parts)

  -- A batch sent again after it is in changes no table, and a call that succeeds counts no row.
  pub insert_readings_again :
      (t : Tables) (rs : List Reading) (s : State)
      → tables s ≡ merged w t rs
      → let r = insert_readings w rs s in
        (tables r.1 ≡ tables s)
        × ((r.0 ≡ some (record { rows = 0; failed = false }))
            ⊎ (r.0 ≡ some (record { rows = 0; failed = true })))
  insert_readings_again t rs s e = elim (insert_readings-Outcome w rs s) [
    | inl (r, u) ↦
        let none_new : added w (tables s) rs ≡ 0 =
          rw take_whole at (added_prefix t (length rs) rs s e) in
        (u ∙ again rs (merged_again t rs), inl (rw r (ap (counted false) none_new)))
    | inr (k, m, r, u, le) ↦
        let unmoved : merged w (merged w t rs) (take k rs) ≡ merged w t rs =
          rw (take-append-drop k rs) at (merged_prefix t (take k rs) (drop k rs)) in
        (
          u ∙ again (take k rs) unmoved,
          inr (rw r (ap (counted true) (omega (arith, le, added_prefix t k rs s e)))),
        )
  ]
    where
      take_whole : take (length rs) rs ≡ rs
      take_whole = take_of_length-le (length rs) rs (omega arith)

      again :
          (xs : List Reading)
          → merged w (merged w t rs) xs ≡ merged w t rs
          → merged w (tables s) xs ≡ tables s
      again xs f = rw e f

      counted : Bool → ℕ → Option Inserted
      counted b n = some (record { rows = n; failed = b })
