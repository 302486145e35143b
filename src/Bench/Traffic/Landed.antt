-- ===== src/Bench/Traffic/Landed.antt =====
-- How many of the bench's readings have landed, while its requests and the server's work
-- interleave.
use mathlib.Core.Path.{subst}
use mathlib.Core.List.{append_assoc}
use cryo_lab_telemetry.Prelude.Weights.{weigh, weigh-append, weigh-move}
use cryo_lab_telemetry.Bench.Load.Counts.{occurs}
use cryo_lab_telemetry.Prelude.{
  ℕ, suc, ◌+◌, ◌*◌, ◌≤◌, ◌<◌, ◌≡◌, refl, sym, ap, ◌∙◌, inl, inr, Text, Map, some, List, [], ◌∷◌,
  ◌++◌, length, length-take, take, take_of_length-le, Bool, true, false, arith,
}
use cryo_lab_telemetry.Values.{Float64}
use cryo_lab_telemetry.Store.Data.{insert_rows}
use cryo_lab_telemetry.Store.World.{World}
use cryo_lab_telemetry.Store.Insert.Rows.{length-insert_rows, new_rows-le}
use cryo_lab_telemetry.Alert.Firing.{Formats}
use cryo_lab_telemetry.Auth.{source_for_token}
use cryo_lab_telemetry.Api.Http.{decoded, Server, Handled}
use cryo_lab_telemetry.Api.Ingest.Kept.{SameServer, ingest-SameServer}
use cryo_lab_telemetry.Bench.Batch.{Producer, has_failed}
use cryo_lab_telemetry.Bench.Traffic.{
  Traffic, batch_of, posted, noted, handled_by, Step, number, answered, given_up, handled_late,
  elsewhere, Run, begin, next,
}
use cryo_lab_telemetry.Bench.Traffic.Numbers.{KeepsMicros, rows}
use cryo_lab_telemetry.Bench.Traffic.Stored.{Stored, ingest-Stored}
use cryo_lab_telemetry.Bench.Traffic.Owned.{
  Owned, Owned-same, number-Owned, sent-Owned, stored-length,
}

times-suc : (n k : ℕ) → n * (k + 1) ≡ n * k + n
times-suc n k = grind arith

plus_one : (a b : ℕ) → a + b + 1 ≡ a + 1 + b
plus_one a b = omega arith

add_assoc : (a b c : ℕ) → a + b + c ≡ a + (b + c)
add_assoc a b c = omega arith

success : (status : ℕ) → has_failed (some status) ≡ false → status < 300
unfolding has_failed
success status h = ground arith

SameServer-trans : (a b c : Server) → SameServer a b → SameServer b c → SameServer a c
SameServer-trans a b c (tokens, started, _) (tokens', started', counted) =
    (tokens' ∙ tokens, started' ∙ started, counted)

module _ (w : World) (f : Formats) (float : ℕ → Float64) (p : Producer) (token source : Text)
    (n : ℕ) (micros : KeepsMicros w) (srv0 : Server) (base : ℕ)
    (known : source_for_token srv0.tokens token ≡ some source) where
  open w use {State, tables}

  -- What has landed: at least the batches that were answered with a success, and at most those
  -- whose calls of `send` are over, without those that are on their way.
  pub record Inv (t : Traffic State) : Type 0 where
    pub own : Owned w float p source micros t.seq (t.batches ++ t.late) (tables t.world).readings
    pub same : SameServer srv0 t.server
    pub least : base + n * t.ok ≤ length (tables t.world).readings
    pub most : length (tables t.world).readings + weigh length t.late ≤ base + n * (t.ok + t.errs)

  rows-length : (ms : List ℕ) → length (rows w float p source ms) ≡ length ms
  rows-length [] = refl
  rows-length (m ∷ ms) = ap suc (rows-length ms)

  at_most :
      (t : Traffic State) (ns : List ℕ) (m : ℕ)
      → length (insert_rows (rows w float p source (take m ns)) (tables t.world).readings)
        ≤ length ns + length (tables t.world).readings
  at_most t ns m =
      let old = (tables t.world).readings in
      omega (
        arith,
        length-insert_rows (rows w float p source (take m ns)) old,
        new_rows-le (rows w float p source (take m ns)) old,
        rows-length (take m ns),
        length-take m ns,
      )

  module _ (t : Traffic State) (inv : Inv t) (before after : List (List ℕ)) (ns : List ℕ)
      (at : t.batches ≡ before ++ ns ∷ after) where
    -- the workers' batches with those on their way
    pub among : t.batches ++ t.late ≡ before ++ ns ∷ (after ++ t.late)
    among = ap (λ l. l ++ t.late) at ∙ append_assoc before (ns ∷ after) t.late

    pub around : (ms : List ℕ) → before ++ ms ∷ (after ++ t.late) ≡ (before ++ ms ∷ after) ++ t.late
    around ms = sym (append_assoc before (ms ∷ after) t.late)

    sent :
        (m : ℕ)
        → Owned w float p source micros t.seq
            ((before ++ [] ∷ after) ++ t.late)
            (insert_rows (rows w float p source (take m ns)) (tables t.world).readings)
    sent m =
        subst
          (λ l.
            Owned w float p source micros t.seq l
              (insert_rows (rows w float p source (take m ns)) (tables t.world).readings))
          (around [])
          (sent-Owned w float p source micros t.seq (t.batches ++ t.late) before (after ++ t.late)
            ns (tables t.world).readings among inv.own m)

  module _ (t : Traffic State) (inv : Inv t) (before after : List (List ℕ)) (ns : List ℕ)
      (at : t.batches ≡ before ++ ns ∷ after) (full : length ns ≡ n) where
    -- A batch that was handled, and that the bench counts as an error.
    failed-Inv :
        (h : Handled State) (m : ℕ)
        → SameServer srv0 h.server
        → (tables h.world).readings
          ≡ insert_rows (rows w float p source (take m ns)) (tables t.world).readings
        → Inv (
            handled_by w f float p token n h
              (noted w f float p token n true (before ++ [] ∷ after) t))
    failed-Inv h m same u =
        let old = (tables t.world).readings in
        record {
          own =
              subst (Owned w float p source micros t.seq ((before ++ [] ∷ after) ++ t.late)) (sym u)
                (sent t inv before after ns at m);
          same = same;
          least = omega (
            arith,
            ap length u,
            inv.least,
            length-insert_rows (rows w float p source (take m ns)) old,
          );
          most = omega (
            arith,
            ap length u,
            inv.most,
            full,
            at_most t ns m,
            times-suc n (t.ok + t.errs),
            ap (λ (k : ℕ). n * k) (add_assoc t.ok t.errs 1),
          );
        }

    -- One that it counts as a success.
    stored-Inv :
        (h : Handled State)
        → SameServer srv0 h.server
        → (tables h.world).readings
          ≡ insert_rows (rows w float p source ns) (tables t.world).readings
        → Inv (
            handled_by w f float p token n h
              (noted w f float p token n false (before ++ [] ∷ after) t))
    stored-Inv h same u =
        let old = (tables t.world).readings in
        let grown =
          stored-length w float p source micros t.seq (t.batches ++ t.late) before (after ++ t.late)
            ns old (among t inv before after ns at) inv.own in
        record {
          own =
              subst (Owned w float p source micros t.seq ((before ++ [] ∷ after) ++ t.late))
                (sym (
                  u ∙ ap (λ (ks : List ℕ). insert_rows (rows w float p source ks) old) (sym whole)))
                (sent t inv before after ns at n);
          same = same;
          least = omega (arith, ap length u, inv.least, grown, full, times-suc n t.ok);
          most = omega (
            arith,
            ap length u,
            inv.most,
            grown,
            full,
            times-suc n (t.ok + t.errs),
            ap (λ (k : ℕ). n * k) (plus_one t.ok t.errs),
          );
        }
      where
        whole : take n ns ≡ ns
        whole = take_of_length-le n ns (omega (arith, full))

    handled-Inv :
        (h : Handled State) (bad : Bool)
        → SameServer srv0 h.server
        → Stored w f float p token source ns (tables t.world).readings h
        → (bad ≡ false → h.response.status < 300)
        → Inv (
            handled_by w f float p token n h
              (noted w f float p token n bad (before ++ [] ∷ after) t))
    handled-Inv h false same (inl (ok, u)) good = stored-Inv h same u
    handled-Inv h true same (inl (ok, u)) good = failed-Inv h n same (
        u
        ∙ ap (λ (ks : List ℕ). insert_rows (rows w float p source ks) (tables t.world).readings)
            (sym (take_of_length-le n ns (omega (arith, full)))))
    handled-Inv h true same (inr (st, m, u)) good = failed-Inv h m same u
    handled-Inv h false same (inr (st, m, u)) good = absurd (omega (arith, st, good refl))

  speaks : (t : Traffic State) → Inv t → source_for_token t.server.tokens token ≡ some source
  speaks t inv = ap (λ (m : Map Text). source_for_token m token) inv.same.0 ∙ known

  -- The client gives a request up.
  given_up-Inv :
      (t : Traffic State)
      → Inv t
      → (before after : List (List ℕ)) (ns : List ℕ) → t.batches ≡ before ++ ns ∷ after
      → length ns ≡ n
      → Inv
          (record (noted w f float p token n true (before ++ [] ∷ after) t) { late = ns ∷ t.late })
  given_up-Inv t inv before after ns at full = record {
    own =
        Owned-same w float p source micros t.seq (t.batches ++ t.late)
          ((before ++ [] ∷ after) ++ ns ∷ t.late) (tables t.world).readings
          (λ k. omega (
            arith,
            weigh-move (occurs k) t.batches before after ns [] at,
            weigh-append (occurs k) t.batches t.late,
            weigh-append (occurs k) (before ++ [] ∷ after) (ns ∷ t.late),
          ))
          inv.own;
    same = inv.same;
    least = inv.least;
    most = omega (
      arith,
      inv.most,
      full,
      times-suc n (t.ok + t.errs),
      ap (λ (k : ℕ). n * k) (add_assoc t.ok t.errs 1),
    );
  }

  -- The server handles one that was given up.
  late-Inv :
      (t : Traffic State)
      → Inv t
      → (before after : List (List ℕ)) (ns : List ℕ) → t.late ≡ before ++ ns ∷ after
      → (h : Handled State) (m : ℕ) → SameServer srv0 h.server
      → (tables h.world).readings
        ≡ insert_rows (rows w float p source (take m ns)) (tables t.world).readings
      → Inv (record (handled_by w f float p token n h t) { late = before ++ [] ∷ after })
  late-Inv t inv before after ns at h m same u =
      let old = (tables t.world).readings in
      let new = insert_rows (rows w float p source (take m ns)) old in
      let all : t.batches ++ t.late ≡ (t.batches ++ before) ++ ns ∷ after =
        ap (λ l. t.batches ++ l) at ∙ sym (append_assoc t.batches before (ns ∷ after)) in
      record {
        own =
            subst (Owned w float p source micros t.seq (t.batches ++ (before ++ [] ∷ after)))
              (sym u)
              (subst (λ l. Owned w float p source micros t.seq l new)
                (append_assoc t.batches before ([] ∷ after))
                (sent-Owned w float p source micros t.seq (t.batches ++ t.late)
                  (t.batches ++ before) after ns old all inv.own m));
        same = same;
        least = omega (
          arith,
          ap length u,
          inv.least,
          length-insert_rows (rows w float p source (take m ns)) old,
        );
        most = omega (
          arith,
          ap length u,
          inv.most,
          at_most t ns m,
          weigh-move length t.late before after ns [] at,
        );
      }

  posted-SameServer :
      (t : Traffic State) (ns : List ℕ)
      → Inv t
      → SameServer srv0 (posted w f float p token n ns t).server
  posted-SameServer t ns inv =
      SameServer-trans srv0 t.server (posted w f float p token n ns t).server inv.same
        (ingest-SameServer w f t.server inv.same.2 token (decoded (batch_of float p ns)) t.world)

  Step-Inv : (t u : Traffic State) → Inv t → Step w f float p token n t u → Inv u
  Step-Inv t u inv (number before after ns at room e) = rw e (record {
    own =
        subst (λ l. Owned w float p source micros (suc t.seq) l (tables t.world).readings)
          (around t inv before after ns at (ns ++ suc t.seq ∷ []))
          (number-Owned w float p source micros t.seq (t.batches ++ t.late) before (after ++ t.late)
            ns (tables t.world).readings (among t inv before after ns at) inv.own);
    same = inv.same;
    least = inv.least;
    most = inv.most;
  })
  Step-Inv t u inv (answered before after ns at full e) =
      let h = posted w f float p token n ns t in
      rw e (
        handled-Inv t inv before after ns at full h (has_failed (some h.response.status))
          (posted-SameServer t ns inv)
          (ingest-Stored w f float p token source t.server ns t.world (speaks t inv))
          (λ fine. success h.response.status fine))
  Step-Inv t u inv (given_up before after ns at full e) =
      rw e (given_up-Inv t inv before after ns at full)
  Step-Inv t u inv (handled_late before after ns at e) =
      let h = posted w f float p token n ns t in
      let old = (tables t.world).readings in
      let same = posted-SameServer t ns inv in
      rw e (elim (ingest-Stored w f float p token source t.server ns t.world (speaks t inv)) [
        | inl (ok, u) ↦ late-Inv t inv before after ns at h (length ns) same (
            u
            ∙ ap (λ (ks : List ℕ). insert_rows (rows w float p source ks) old)
                (sym (take_of_length-le (length ns) ns (omega arith))))
        | inr (st, m, u) ↦ late-Inv t inv before after ns at h m same u
      ])
  Step-Inv t u inv (elsewhere srv s same kept e) = rw e (record {
    own = subst (Owned w float p source micros t.seq (t.batches ++ t.late)) (sym kept) inv.own;
    same = SameServer-trans srv0 t.server srv inv.same same;
    least = omega (arith, ap length kept, inv.least);
    most = omega (arith, ap length kept, inv.most);
  })

  pub Run-Inv : (start t : Traffic State) → Inv start → Run w f float p token n start t → Inv t
  Run-Inv start t inv begin = inv
  Run-Inv start t inv (next {t = s} r st) = Step-Inv s t (Run-Inv start s inv r) st
