-- ===== src/Bench/Load/Runs.antt =====
-- What holds after any run of the workers, and how long a run is.
use mathlib.Core.Path.{subst}
use cryo_lab_telemetry.Prelude.{
  ℕ, zero, suc, ◌+◌, ◌-◌, ◌*◌, ◌≤◌, ◌<◌, ◌≡◌, sym, List, [], ◌∷◌, ◌++◌, Bool, if◌then◌else◌, ltb,
  ◌&&◌, arith, length, length-append,
}
use cryo_lab_telemetry.Prelude.Int.{ℤ}
use cryo_lab_telemetry.Values.{Time}
use cryo_lab_telemetry.Bench.Load.{
  Pc, idle, holding, answered, appended, done, Load, start_load, append_sample, count_result, Step,
  take, stop, send, append, count, Run, begin, next,
}
use cryo_lab_telemetry.Prelude.Weights.{weigh, weigh-move}
use cryo_lab_telemetry.Bench.Load.Counts.{
  weigh-idle, occurs, is_holding, holds, is_answered, is_appended, is_done, steps_left,
}

-- After `k` steps, of `c` workers on `n` requests: each index below `n` that has been taken is with
-- a worker or has been sent, once; every request that was sent has its sample, and every sample its
-- count, or a worker is about to add them; a worker has ended only where no index is left; and the
-- steps taken and those left make up `4 * n + c`.
pub record Inv (n c k : ℕ) (s : Load) : Type 0 where
  pub once :
      (i : ℕ)
      → occurs i s.sent + weigh (holds i) s.workers ≡ (if ltb i n && ltb i s.next then 1 else 0)
  pub sent_all : length s.sent + weigh is_holding s.workers + (n - s.next) ≡ n
  pub sampled : length s.sent ≡ length s.stats.samples + weigh is_answered s.workers
  pub counted : length s.stats.samples ≡ s.stats.ok + s.stats.errs + weigh is_appended s.workers
  pub ended : 1 ≤ weigh is_done s.workers → n ≤ s.next
  pub crew : weigh (λ p. 1) s.workers ≡ c
  pub steps : k + 4 * (n - s.next) + weigh steps_left s.workers ≡ 4 * n + c

start-Inv : (n c : ℕ) → Inv n c 0 (start_load c)
unfolding start_load
start-Inv n c = record {
  once = λ i. ground (arith, weigh-idle (holds i) c);
  sent_all = omega (arith, weigh-idle is_holding c);
  sampled = omega (arith, weigh-idle is_answered c);
  counted = omega (arith, weigh-idle is_appended c);
  ended = λ h. absurd (omega (arith, weigh-idle is_done c));
  crew = omega (arith, weigh-idle (λ p. 1) c);
  steps = omega (arith, weigh-idle steps_left c);
}

module _ (n c k : ℕ) (scheduled : ℕ → Time) (s : Load) (inv : Inv n c k s) where
  -- what a move of one worker does to every count
  take-Inv :
      (before after : List Pc)
      → s.workers ≡ before ++ idle ∷ after
      → s.next < n
      → Inv n c (suc k) (record s { next = s.next + 1; workers = before ++ holding s.next ∷ after })
  take-Inv before after w lt =
      let moved = λ (f : Pc → ℕ). weigh-move f s.workers before after idle (holding s.next) w in
      record {
        once = λ i. ground (arith, inv.once i, moved (holds i));
        sent_all = omega (arith, inv.sent_all, moved is_holding);
        sampled = omega (arith, inv.sampled, moved is_answered);
        counted = omega (arith, inv.counted, moved is_appended);
        ended = λ h. absurd (omega (arith, h, inv.ended (omega (arith, h, moved is_done))));
        crew = omega (arith, inv.crew, moved (λ p. 1));
        steps = omega (arith, inv.steps, moved steps_left);
      }

  stop-Inv :
      (before after : List Pc)
      → s.workers ≡ before ++ idle ∷ after
      → n ≤ s.next
      → Inv n c (suc k) (record s { next = s.next + 1; workers = before ++ done ∷ after })
  stop-Inv before after w ge =
      let moved = λ (f : Pc → ℕ). weigh-move f s.workers before after idle done w in
      record {
        once = λ i. ground (arith, inv.once i, moved (holds i));
        sent_all = omega (arith, inv.sent_all, moved is_holding);
        sampled = omega (arith, inv.sampled, moved is_answered);
        counted = omega (arith, inv.counted, moved is_appended);
        ended = λ h. omega arith;
        crew = omega (arith, inv.crew, moved (λ p. 1));
        steps = omega (arith, inv.steps, moved steps_left);
      }

  send-Inv :
      (before after : List Pc) (i : ℕ) (d : ℤ) (failed : Bool)
      → s.workers ≡ before ++ holding i ∷ after
      → Inv n c
          (suc k)
          (record s { sent = i ∷ s.sent; workers = before ++ answered d failed ∷ after })
  send-Inv before after i d failed w =
      let moved =
        λ (f : Pc → ℕ). weigh-move f s.workers before after (holding i) (answered d failed) w in
      record {
        once = λ j. ground (arith, inv.once j, moved (holds j));
        sent_all = omega (arith, inv.sent_all, moved is_holding);
        sampled = omega (arith, inv.sampled, moved is_answered);
        counted = omega (arith, inv.counted, moved is_appended);
        ended = λ h. inv.ended (omega (arith, h, moved is_done));
        crew = omega (arith, inv.crew, moved (λ p. 1));
        steps = omega (arith, inv.steps, moved steps_left);
      }

  append-Inv :
      (before after : List Pc) (d : ℤ) (failed : Bool)
      → s.workers ≡ before ++ answered d failed ∷ after
      → Inv n c (suc k) (record s {
        stats = append_sample s.stats d;
        workers = before ++ appended failed ∷ after;
      })
  append-Inv before after d failed w =
      let moved = λ (f : Pc → ℕ).
        weigh-move f s.workers before after (answered d failed) (appended failed) w in
      let longer = length-append s.stats.samples (d ∷ []) in
      record {
        once = λ j. ground (arith, inv.once j, moved (holds j));
        sent_all = omega (arith, inv.sent_all, moved is_holding);
        sampled = omega (arith, inv.sampled, moved is_answered, longer);
        counted = omega (arith, inv.counted, moved is_appended, longer);
        ended = λ h. inv.ended (omega (arith, h, moved is_done));
        crew = omega (arith, inv.crew, moved (λ p. 1));
        steps = omega (arith, inv.steps, moved steps_left);
      }

  count-Inv :
      (before after : List Pc) (failed : Bool)
      → s.workers ≡ before ++ appended failed ∷ after
      → Inv n c
          (suc k)
          (record s { stats = count_result s.stats failed; workers = before ++ idle ∷ after })
  count-Inv before after failed w =
      let moved = λ (f : Pc → ℕ). weigh-move f s.workers before after (appended failed) idle w in
      record {
        once = λ j. ground (arith, inv.once j, moved (holds j));
        sent_all = omega (arith, inv.sent_all, moved is_holding);
        sampled = ground (arith, inv.sampled, moved is_answered);
        counted = ground (arith, inv.counted, moved is_appended);
        ended = λ h. inv.ended (omega (arith, h, moved is_done));
        crew = omega (arith, inv.crew, moved (λ p. 1));
        steps = omega (arith, inv.steps, moved steps_left);
      }

  Step-Inv : (t : Load) → Step n scheduled s t → Inv n c (suc k) t
  Step-Inv t (take before after w lt e) =
      subst (Inv n c (suc k)) (sym e) (take-Inv before after w lt)
  Step-Inv t (stop before after w ge e) =
      subst (Inv n c (suc k)) (sym e) (stop-Inv before after w ge)
  Step-Inv t (send before after i b r failed w le le' e) =
      subst (Inv n c (suc k)) (sym e) (send-Inv before after i _ failed w)
  Step-Inv t (append before after d failed w e) =
      subst (Inv n c (suc k)) (sym e) (append-Inv before after d failed w)
  Step-Inv t (count before after failed w e) =
      subst (Inv n c (suc k)) (sym e) (count-Inv before after failed w)

pub Run-Inv : (n c k : ℕ) (scheduled : ℕ → Time) (s : Load) → Run n scheduled c k s → Inv n c k s
Run-Inv n c zero scheduled s begin = start-Inv n c
Run-Inv n c (suc k) scheduled s (next {s = r} before step) =
    Step-Inv n c k scheduled r (Run-Inv n c k scheduled r before) s step
