-- ===== src/Bench/Load/Ends.antt =====
-- How a run of the workers ends.
use cryo_lab_telemetry.Prelude.{
  ℕ, ◌+◌, ◌*◌, ◌≤◌, ◌<◌, ◌≡◌, inl, inr, refl, ap, List, [], ◌∷◌, ◌++◌, false, if◌then◌else◌, ltb,
  arith, length, All, Bool-cases,
}
use cryo_lab_telemetry.Values.{Time}
use cryo_lab_telemetry.Bench.Load.{
  Pc, idle, holding, answered, appended, done, Load, Step, take, stop, send, append, count, Run,
}
use cryo_lab_telemetry.Prelude.Weights.{weigh}
use cryo_lab_telemetry.Bench.Load.Counts.{
  occurs, is_holding, holds, is_answered, is_appended, is_done, steps_left,
}
use cryo_lab_telemetry.Bench.Load.Runs.{Run-Inv}

-- All workers have returned.
abbrev pub AllDone : Load → Type 0
AllDone s = All (λ p. p ≡ done) s.workers

weigh-done : (w : Pc → ℕ) (ws : List Pc) → All (λ p. p ≡ done) ws → weigh w ws ≡ length ws * w done
weigh-done w [] h = omega arith
weigh-done w (p ∷ ps) (e, h) = omega (arith, ap w e, weigh-done w ps h)

-- A worker that has not returned, with those before and behind it.
abbrev Found : List Pc → Type 0
Found ws =
    (before : List Pc) × (p : Pc) × (after : List Pc) × (ws ≡ before ++ p ∷ after)
    × (1 ≤ steps_left p)

find_worker : (ws : List Pc) → 1 ≤ weigh steps_left ws → Found ws
find_worker [] h = absurd (omega arith)
find_worker (p ∷ ps) h = elim (Bool-cases (ltb 0 (steps_left p))) [
  | inl here ↦ ([], p, ps, refl, ground arith)
  | inr ended ↦
      let (before, q, after, e, left) = find_worker ps (ground arith) in
      (p ∷ before, q, after, ap (λ l. p ∷ l) e, left)
]

returned : (ws : List Pc) → weigh steps_left ws ≡ 0 → weigh is_done ws ≡ weigh (λ p. 1) ws
returned [] h = refl
returned (idle ∷ ps) h = absurd (omega arith)
returned (holding i ∷ ps) h = absurd (omega arith)
returned (answered d e ∷ ps) h = absurd (omega arith)
returned (appended e ∷ ps) h = absurd (omega arith)
returned (done ∷ ps) h = omega (arith, returned ps (omega arith))

-- A worker that has not returned can take its next step.
worker_step :
    (n : ℕ) (scheduled : ℕ → Time) (s : Load) (before after : List Pc) (p : Pc)
    → s.workers ≡ before ++ p ∷ after
    → 1 ≤ steps_left p
    → (t : Load) × Step n scheduled s t
worker_step n scheduled s before after idle e h = elim (Bool-cases (ltb s.next n)) [
  | inl more ↦ (_, take before after e (ground arith) refl)
  | inr none_left ↦ (_, stop before after e (ground arith) refl)
]
worker_step n scheduled s before after (holding i) e h =
    (_, send before after i (scheduled i) (scheduled i) false e (omega arith) (omega arith) refl)
worker_step n scheduled s before after (answered d failed) e h =
    (_, append before after d failed e refl)
worker_step n scheduled s before after (appended failed) e h = (_, count before after failed e refl)
worker_step n scheduled s before after done h k = absurd (omega arith)

-- No run of `c` workers on `n` requests, with at least one worker, has more than `4 * n + c` steps;
-- and in a run that has fewer, some worker can take a step.
pub Run-le :
    (n c k : ℕ) (scheduled : ℕ → Time) (s : Load)
    → 1 ≤ c
    → Run n scheduled c k s
    → (k ≤ 4 * n + c) × (k < 4 * n + c → (t : Load) × Step n scheduled s t)
Run-le n c k scheduled s some_worker run =
    let inv = Run-Inv n c k scheduled s run in
    (
      omega (arith, inv.steps),
      λ fewer. elim (Bool-cases (ltb 0 (weigh steps_left s.workers))) [
        | inl busy ↦
            let (before, p, after, e, left) = find_worker s.workers (ground arith) in
            worker_step n scheduled s before after p e left
        | inr quiet ↦
            let ended = returned s.workers (ground arith) in
            absurd (
              ground
                (arith, inv.steps, inv.crew, ended, inv.ended (omega (arith, ended, inv.crew))))
      ],
    )

-- When all workers have returned, of which there is at least one, each of the `n` requests has been
-- sent exactly once, and nothing else; there are `n` samples, and `n` results counted; and the run
-- has had `4 * n + c` steps.
pub Run-complete :
    (n c k : ℕ) (scheduled : ℕ → Time) (s : Load)
    → 1 ≤ c
    → Run n scheduled c k s
    → AllDone s
    → ((i : ℕ) → occurs i s.sent ≡ (if ltb i n then 1 else 0))
      × (length s.stats.samples ≡ n)
      × (s.stats.ok + s.stats.errs ≡ n)
      × (k ≡ 4 * n + c)
Run-complete n c k scheduled s some_worker run h =
    let inv = Run-Inv n c k scheduled s run in
    let w = λ (f : Pc → ℕ). weigh-done f s.workers h in
    let over = inv.ended (omega (arith, w is_done, w (λ p. 1), inv.crew)) in
    (
      λ i. ground (arith, inv.once i, w (holds i)),
      omega (arith, inv.sent_all, inv.sampled, w is_holding, w is_answered),
      omega (
        arith,
        inv.sent_all,
        inv.sampled,
        inv.counted,
        w is_holding,
        w is_answered,
        w is_appended,
      ),
      omega (arith, inv.steps, w steps_left),
    )
