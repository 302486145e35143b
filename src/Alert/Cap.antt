-- ===== src/Alert/Cap.antt =====
-- The daily cap on dispatches, over a history of calls of `allow_notify` and changes of the cap.
use cryo_lab_telemetry.Prelude.{
  ℕ, ◌+◌, ◌-◌, ◌≤◌, ◌≡◌, refl, Option, none, some, List, [], ◌∷◌, Bool, true, ◌&&◌, arith, count,
  ltb, if◌then◌else◌,
}
use cryo_lab_telemetry.Prelude.Int.{ℤ, pos, ◌≤ℤ◌, ltb_ℤ, eq_ℤ}
use cryo_lab_telemetry.Alert.{Alerter, same_day, allow_notify}

-- `ask d` is a call of `allowNotify` on the UTC day `d`; `set_cap k` is a reload that found `k`.
pub data CapStep : Type 0 where
  ask : ℤ → CapStep
  set_cap : ℕ → CapStep

-- The alerter afterwards, and the day and answer of each call.
pub run_cap : Alerter → List CapStep → Alerter × List (ℤ × Bool)
run_cap a [] = (a, [])
run_cap a (set_cap k ∷ xs) = run_cap (record a { max_per_day = pos k }) xs
run_cap a (ask d ∷ xs) =
    let (a', allowed) = allow_notify a d in
    let (a'', answers) = run_cap a' xs in (a'', (d, allowed) ∷ answers)

abbrev NotAfter : Option ℤ → ℤ → Type 0
NotAfter none d = Unit
NotAfter (some e) d = e ≤ℤ d

-- The days never go back, and every cap that is set is between 1 and `m`.
abbrev pub IsOrdered : ℕ → Option ℤ → List CapStep → Type 0
IsOrdered m last [] = Unit
IsOrdered m last (ask d ∷ xs) = NotAfter last d × IsOrdered m (some d) xs
IsOrdered m last (set_cap k ∷ xs) = (1 ≤ k) × (k ≤ m) × IsOrdered m last xs

-- How many dispatches the day `d` has left, where `n` were made on the day `last`.
abbrev left : ℕ → Option ℤ → ℕ → ℤ → ℕ
left m none n d = m
left m (some e) n d = if eq_ℤ e d then m - n else if ltb_ℤ d e then 0 else m

left-le : (m : ℕ) (last : Option ℤ) (n : ℕ) (d : ℤ) → left m last n d ≤ m
left-le m last n d = ground arith

abbrev granted : ℤ → ℤ × Bool → Bool
granted d answer = eq_ℤ answer.0 d && answer.1

module _ (m k : ℕ) (a : Alerter) (d : ℤ) (cap : a.max_per_day ≡ pos k) (low : 1 ≤ k) (high : k ≤ m)
    (used : a.notify_n ≤ m) (later : NotAfter a.notify_day d) where
  after_ask :
      let r = allow_notify a d in
      (r.0.max_per_day ≡ pos k) × (r.0.notify_n ≤ m) × (r.0.notify_day ≡ some d)
  unfolding allow_notify
  after_ask = ground arith

  left_after :
      (e : ℤ)
      → let r = allow_notify a d in
        (if granted e (d, r.1) then 1 else 0) + left m (some d) r.0.notify_n e
        ≤ left m a.notify_day a.notify_n e
  unfolding allow_notify
  left_after e = ground arith

run_cap-le-left :
    (m k : ℕ) (a : Alerter) (xs : List CapStep) (e : ℤ)
    → a.max_per_day ≡ pos k
    → 1 ≤ k
    → k ≤ m
    → a.notify_n ≤ m
    → IsOrdered m a.notify_day xs
    → count (granted e) (run_cap a xs).1 ≤ left m a.notify_day a.notify_n e
unfolding run_cap
run_cap-le-left m k a [] e cap low high used h = omega arith
run_cap-le-left m k a (set_cap j ∷ xs) e cap low high used h =
    run_cap-le-left m j (record a { max_per_day = pos j }) xs e refl h.0 h.1 used h.2
run_cap-le-left m k a (ask d ∷ xs) e cap low high used h =
    let (cap', used', day) = after_ask m k a d cap low high used h.0 in
    let rest = run_cap-le-left m k (allow_notify a d).0 xs e cap' low high used' (rw day h.1) in
    omega (arith, rw day at rest, left_after m k a d cap low high used h.0 e)

-- While the cap stays between 1 and `m`, the clock does not go back to an earlier day, and at most
-- `m` dispatches are counted at the start, no day sees more than `m` calls allowed, whatever calls
-- and reloads come in between.
pub run_cap-le :
    (m k : ℕ) (a : Alerter) (xs : List CapStep) (day : ℤ)
    → a.max_per_day ≡ pos k
    → 1 ≤ k
    → k ≤ m
    → a.notify_n ≤ m
    → IsOrdered m a.notify_day xs
    → count (λ (x : ℤ × Bool). eq_ℤ x.0 day && x.1) (run_cap a xs).1 ≤ m
run_cap-le m k a xs day cap low high used h =
    omega (
      arith,
      run_cap-le-left m k a xs day cap low high used h,
      left-le m a.notify_day a.notify_n day,
    )

-- Under an unlimited cap every call is allowed, and none is counted.
pub run_cap-unlimited :
    (a : Alerter) (d : ℤ) → a.max_per_day ≤ℤ pos 0 → allow_notify a d ≡ (a, true)
unfolding allow_notify
run_cap-unlimited a d h = ground arith

-- A finite cap is exact: on a day on which `n` dispatches were made, a call is allowed exactly when
-- `n` is below the cap, and on a new day always.
pub allow_notify_iff :
    (a : Alerter) (d : ℤ) (k : ℕ)
    → a.max_per_day ≡ pos k
    → 1 ≤ k
    → (allow_notify a d).1 ≡ (if same_day a.notify_day d then ltb a.notify_n k else true)
unfolding allow_notify
allow_notify_iff a d k cap low = ground arith
