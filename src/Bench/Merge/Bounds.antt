-- ===== src/Bench/Merge/Bounds.antt =====
-- What every interleaving of the merge keeps.
use mathlib.Core.Path.{subst}
use cryo_lab_telemetry.Prelude.{
  ℕ, ◌+◌, ◌≤◌, ◌≡◌, refl, sym, ◌∙◌, ap, List, [], ◌∷◌, ◌++◌, Bool, arith, All, count, count-append,
}
use cryo_lab_telemetry.Prelude.Int.{ℤ}
use cryo_lab_telemetry.Bench.Load.{LatencyStats}
use cryo_lab_telemetry.Prelude.Weights.{weigh, weigh-move, All-move, All-at}
use cryo_lab_telemetry.Bench.Merge.{
  Pc, measured, appended, read_ok, added_ok, read_errs, added, Merge, measured_all, start_merge,
  Access, append, load_ok, store_ok, load_errs, store_errs, Run, begin, next,
}

-- Every producer is done.
abbrev pub IsAdded : Pc → Type 0
IsAdded (added st) = Unit
IsAdded _ = ⊥

abbrev own : Pc → LatencyStats
own (measured st) = st
own (appended st) = st
own (read_ok st old) = st
own (added_ok st) = st
own (read_errs st old) = st
own (added st) = st

-- what of a producer's statistics has been merged
abbrev sampled : (ℤ → Bool) → Pc → ℕ
sampled p (measured st) = 0
sampled p q = count p (own q).samples

abbrev oks : Pc → ℕ
oks (measured st) = 0
oks (appended st) = 0
oks (read_ok st old) = 0
oks q = (own q).ok

abbrev failures : Pc → ℕ
failures (added st) = st.errs
failures _ = 0

-- what a producer has read is at most these counts
abbrev Stale : ℕ → ℕ → Pc → Type 0
Stale ok errs (read_ok st old) = old ≤ ok
Stale ok errs (read_errs st old) = old ≤ errs
Stale ok errs _ = Unit

Stale-mono : (o e o' e' : ℕ) (p : Pc) → o ≤ o' → e ≤ e' → Stale o e p → Stale o' e' p
Stale-mono o e o' e' (measured st) h k l = tt
Stale-mono o e o' e' (appended st) h k l = tt
Stale-mono o e o' e' (read_ok st old) h k l = omega arith
Stale-mono o e o' e' (added_ok st) h k l = tt
Stale-mono o e o' e' (read_errs st old) h k l = omega arith
Stale-mono o e o' e' (added st) h k l = tt

record Inv (sts : List LatencyStats) (s : Merge) : Type 0 where
  kept : (p : ℤ → Bool) → count p s.merged.samples ≡ weigh (sampled p) s.producers
  ok_le : s.merged.ok ≤ weigh oks s.producers
  errs_le : s.merged.errs ≤ weigh failures s.producers
  stale : All (Stale (weigh oks s.producers) (weigh failures s.producers)) s.producers
  owned : (f : LatencyStats → ℕ) → weigh (λ q. f (own q)) s.producers ≡ weigh f sts

-- What an access changes, for one producer: what it has merged, and bounds that its thread keeps,
-- where `o` and `e` are what the producers have merged of each count, and `o'` and `e'` afterwards.
record Gain (m : LatencyStats) (p : Pc) (m' : LatencyStats) (q : Pc) : Type 0 where
  sample : (t : ℤ → Bool) → count t m'.samples + sampled t p ≡ count t m.samples + sampled t q
  owner : own q ≡ own p
  ok_le : oks p ≤ oks q
  errs_le : failures p ≤ failures q
  bounded :
      (o e o' e' : ℕ)
      → m.ok ≤ o
      → m.errs ≤ e
      → Stale o e p
      → o' + oks p ≡ o + oks q
      → e' + failures p ≡ e + failures q
      → (m'.ok ≤ o') × (m'.errs ≤ e') × Stale o' e' q

Access-Gain :
    (m : LatencyStats) (p : Pc) (m' : LatencyStats) (q : Pc) → Access m p m' q → Gain m p m' q
Access-Gain m _ _ _ (append st) = record {
  sample = λ t. omega (arith, count-append t m.samples st.samples);
  owner = refl;
  ok_le = omega arith;
  errs_le = omega arith;
  bounded = λ o e o' e' h k l g g'. (omega arith, omega arith, tt);
}
Access-Gain m _ _ _ (load_ok st) = record {
  sample = λ t. refl;
  owner = refl;
  ok_le = omega arith;
  errs_le = omega arith;
  bounded = λ o e o' e' h k l g g'. (omega arith, omega arith, omega arith);
}
Access-Gain m _ _ _ (store_ok st old) = record {
  sample = λ t. refl;
  owner = refl;
  ok_le = omega arith;
  errs_le = omega arith;
  bounded = λ o e o' e' h k l g g'. (omega arith, omega arith, tt);
}
Access-Gain m _ _ _ (load_errs st) = record {
  sample = λ t. refl;
  owner = refl;
  ok_le = omega arith;
  errs_le = omega arith;
  bounded = λ o e o' e' h k l g g'. (omega arith, omega arith, omega arith);
}
Access-Gain m _ _ _ (store_errs st old) = record {
  sample = λ t. refl;
  owner = refl;
  ok_le = omega arith;
  errs_le = omega arith;
  bounded = λ o e o' e' h k l g g'. (omega arith, omega arith, tt);
}

start-Inv : (sts : List LatencyStats) → Inv sts (start_merge sts)
unfolding start_merge
start-Inv sts = record {
  kept = λ t. sym (nothing (sampled t) sts (λ st. refl));
  ok_le = omega arith;
  errs_le = omega arith;
  stale = fresh sts _ _;
  owned = owners sts;
}
  where
    nothing :
        (w : Pc → ℕ) (l : List LatencyStats)
        → ((st : LatencyStats) → w (measured st) ≡ 0)
        → weigh w (measured_all l) ≡ 0
    nothing w [] h = refl
    nothing w (st ∷ l) h = omega (arith, h st, nothing w l h)

    fresh : (l : List LatencyStats) (o e : ℕ) → All (Stale o e) (measured_all l)
    fresh [] o e = tt
    fresh (st ∷ l) o e = (tt, fresh l o e)

    owners :
        (l : List LatencyStats) (f : LatencyStats → ℕ)
        → weigh (λ q. f (own q)) (measured_all l) ≡ weigh f l
    owners [] f = refl
    owners (st ∷ l) f = omega (arith, owners l f)

Access-Inv :
    (sts : List LatencyStats) (s : Merge) (m : LatencyStats) (before after : List Pc) (p q : Pc)
    → Inv sts s
    → Access s.merged p m q
    → s.producers ≡ before ++ p ∷ after
    → Inv sts (record { merged = m; producers = before ++ q ∷ after })
Access-Inv sts s m before after p q inv access at =
    let gain = Access-Gain s.merged p m q access in
    let moved = λ (f : Pc → ℕ). weigh-move f s.producers before after p q at in
    let o = weigh oks s.producers in
    let e = weigh failures s.producers in
    let old : All (Stale o e) (before ++ p ∷ after) = subst (All (Stale o e)) at inv.stale in
    let (ok_le, errs_le, new) =
      gain.bounded o e _ _ inv.ok_le inv.errs_le (All-at (Stale o e) before after p old) (moved oks)
        (moved failures) in
    record {
      kept = λ t. omega (arith, inv.kept t, gain.sample t, moved (sampled t));
      ok_le = ok_le;
      errs_le = errs_le;
      stale =
          All-move (Stale o e) _
            (λ x.
              Stale-mono o e _ _ x (omega (arith, moved oks, gain.ok_le))
                (omega (arith, moved failures, gain.errs_le)))
            before after p q old new;
      owned = λ f. omega (arith, inv.owned f, moved (λ x. f (own x)), ap f gain.owner);
    }

Run-Inv : (sts : List LatencyStats) (s : Merge) → Run sts s → Inv sts s
Run-Inv sts _ begin = start-Inv sts
Run-Inv sts s (next {s = r} {m = m} run before after p q access at e) =
    subst (Inv sts) (sym e) (Access-Inv sts r m before after p q (Run-Inv sts r run) access at)

finished :
    (w : Pc → ℕ) (f : LatencyStats → ℕ) (ps : List Pc)
    → ((st : LatencyStats) → w (added st) ≡ f st)
    → All IsAdded ps
    → weigh w ps ≡ weigh (λ q. f (own q)) ps
finished w f [] h l = refl
finished w f (added st ∷ ps) h (l, ls) = omega (arith, h st, finished w f ps h ls)
finished w f (measured st ∷ ps) h (l, ls) = elim l [ ]
finished w f (appended st ∷ ps) h (l, ls) = elim l [ ]
finished w f (read_ok st old ∷ ps) h (l, ls) = elim l [ ]
finished w f (added_ok st ∷ ps) h (l, ls) = elim l [ ]
finished w f (read_errs st old ∷ ps) h (l, ls) = elim l [ ]

-- When all producers are done, in whatever order their accesses came: the merged samples are those
-- of the producers, each as often as they have it together; and the merged counts are at most the
-- sums of the producers' counts.
pub merge-le :
    (sts : List LatencyStats) (s : Merge)
    → Run sts s
    → All IsAdded s.producers
    → ((t : ℤ → Bool) → count t s.merged.samples ≡ weigh (λ st. count t st.samples) sts)
      × (s.merged.ok ≤ weigh (λ st. st.ok) sts)
      × (s.merged.errs ≤ weigh (λ st. st.errs) sts)
merge-le sts s run h =
    let inv = Run-Inv sts s run in
    let all_of =
      λ (w : Pc → ℕ) (f : LatencyStats → ℕ) (e : (st : LatencyStats) → w (added st) ≡ f st).
        finished w f s.producers e h ∙ inv.owned f in
    (
      λ t. inv.kept t ∙ all_of (sampled t) (λ st. count t st.samples) (λ st. refl),
      omega (arith, inv.ok_le, all_of oks (λ st. st.ok) (λ st. refl)),
      omega (arith, inv.errs_le, all_of failures (λ st. st.errs) (λ st. refl)),
    )
