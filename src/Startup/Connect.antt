-- ===== src/Startup/Connect.antt =====
-- How `connectWithRetry` ends.
use cryo_lab_telemetry.Prelude.{
  ℕ, zero, suc, ◌<◌, ◌≡◌, refl, ap, ◌∙◌, inl, inr, Text, Option, none, some, ◌∷◌, true, false,
  arith, Option-cases, Bool-cases,
}
use cryo_lab_telemetry.Prelude.Int.{ℤ}
use cryo_lab_telemetry.Startup.{
  PoolLibrary, Connected, connected, cancelled, gave_up, attempts, with_max_conns, pinged,
  new_store, connect_loop, connect_with_retry,
}

module _ {S : Type 0} (l : PoolLibrary S) (url : Text) (n : ℤ) where
  open l use {Pool, open_pools}

  -- A round of the loop that finds no database: an attempt, and the wait behind it.
  abbrev pub round : S → S
  round s = (l.wait (new_store l url n s).1).1

  abbrev pub after : ℕ → S → S
  after zero s = s
  after (suc k) s = after k (round s)

  -- The first `k` attempts fail, and the context is not done in the waits behind them.
  abbrev pub Failing : ℕ → S → Type 0
  Failing zero s = Unit
  Failing (suc k) s =
      ((new_store l url n s).0 ≡ none)
      × ((l.wait (new_store l url n s).1).0 ≡ false)
      × Failing k (round s)

  -- A store that is returned has its pool open, over those that were; a failure leaves none behind.
  abbrev Pools : S → Option Pool × S → Type 0
  Pools s (some p, out) = open_pools out ≡ p ∷ open_pools s
  Pools s (none, out) = open_pools out ≡ open_pools s

  pinged-Pools :
      (p : Pool) (s s1 : S) → open_pools s1 ≡ p ∷ open_pools s → Pools s (pinged l (some p, s1))
  unfolding pinged
  pinged-Pools p s s1 h =
      let kept = l.ping_keeps p s1 ∙ h in
      elim (Option-cases (l.ping p s1).0) [
        | inl down ↦ rw (down, pinged) (l.close_law p (open_pools s) (l.ping p s1).1 kept)
        | inr (_, up) ↦ rw (up, pinged) kept
      ]

  new_store-Pools : (s : S) → Pools s (new_store l url n s)
  unfolding new_store pinged
  new_store-Pools s = elim (Option-cases (l.parse_config url)) [
    | inl bad ↦ rw (bad, new_store) refl
    | inr (c, good) ↦
        let c' = with_max_conns l n c in
        elim (Option-cases (l.new_with_config c' s).0) [
          | inl lost ↦ rw (good, new_store) (rw (lost, pinged) (l.new_failed_law c' s lost))
          | inr (p, got) ↦
              rw (good, new_store)
                (rw got (pinged-Pools p s (l.new_with_config c' s).1 (l.new_law c' s p got)))
        ]
  ]

  -- How a loop of `m` attempts ends.
  pub data Ended (m : ℕ) (s : S) (r : Connected Pool × S) : Type 0 where
    -- attempt k + 1 is the first that succeeds: its pool is open, and no other that was not before
    up :
        (k : ℕ) (p : Pool)
        → k < m
        → Failing k s
        → (new_store l url n (after k s)).0 ≡ some p
        → r ≡ (connected p, (new_store l url n (after k s)).1)
        → open_pools r.1 ≡ p ∷ open_pools s
        → Ended m s r
    -- the context is done in the wait behind attempt k + 1, and no attempt has succeeded
    stopped :
        (k : ℕ)
        → k < m
        → Failing k s
        → (new_store l url n (after k s)).0 ≡ none
        → (l.wait (new_store l url n (after k s)).1).0 ≡ true
        → r ≡ (cancelled, round (after k s))
        → open_pools r.1 ≡ open_pools s
        → Ended m s r
    -- all attempts have failed
    exhausted : Failing m s → r ≡ (gave_up, after m s) → open_pools r.1 ≡ open_pools s → Ended m s r

  round-pools : (s : S) → (new_store l url n s).0 ≡ none → open_pools (round s) ≡ open_pools s
  round-pools s down =
      l.wait_keeps (new_store l url n s).1
      ∙ closed (new_store l url n s).0 (new_store l url n s).1 down (new_store-Pools s)
    where
      closed :
          (o : Option Pool) (out : S) → o ≡ none → Pools s (o, out) → open_pools out ≡ open_pools s
      closed none out e h = h
      closed (some p) out e h = cc

  Ended-next :
      (m : ℕ) (s : S) (r : Connected Pool × S)
      → (new_store l url n s).0 ≡ none
      → (l.wait (new_store l url n s).1).0 ≡ false
      → Ended m (round s) r
      → Ended (suc m) s r
  Ended-next m s r down going (up k p lt h got e u) =
      up (suc k) p (omega arith) (down, going, h) got e (u ∙ ap (λ ps. p ∷ ps) (round-pools s down))
  Ended-next m s r down going (stopped k lt h down' done e u) =
      stopped (suc k) (omega arith) (down, going, h) down' done e (u ∙ round-pools s down)
  Ended-next m s r down going (exhausted h e u) =
      exhausted (down, going, h) e (u ∙ round-pools s down)

  connect_loop-Ended : (m : ℕ) (s : S) → Ended m s (connect_loop l m url n s)
  unfolding connect_loop
  connect_loop-Ended zero s = exhausted tt refl refl
  connect_loop-Ended (suc m) s = elim (Option-cases (new_store l url n s).0) [
    | inr (p, got) ↦
        rw (got, connect_loop)
          (up 0 p (omega arith) tt got refl
            (opened (new_store l url n s).0 got (new_store-Pools s)))
    | inl down ↦ elim (Bool-cases (l.wait (new_store l url n s).1).0) [
      | inl done ↦
          rw (down, done, connect_loop)
            (stopped 0 (omega arith) tt down done refl (round-pools s down))
      | inr going ↦
          rw (down, going, connect_loop)
            (Ended-next m s (connect_loop l m url n (round s)) down going
              (connect_loop-Ended m (round s)))
    ]
  ]
    where
      opened :
          {p : Pool} (o : Option Pool) {out : S}
          → o ≡ some p
          → Pools s (o, out)
          → open_pools out ≡ p ∷ open_pools s
      opened none e h = cc
      opened (some q) e h = cc

  -- The server gets its store from the first of at most 30 attempts that succeeds, unless it is
  -- cancelled before; it gives up only when all 30 have failed; and whichever way it ends, no pool
  -- but that of the store is left open.
  pub connect_with_retry-Ended : (s : S) → Ended attempts s (connect_with_retry l url n s)
  unfolding connect_with_retry
  connect_with_retry-Ended s = connect_loop-Ended attempts s

  connect_loop-connected :
      (m k : ℕ) (s : S) (p : Pool)
      → k < m
      → Failing k s
      → (new_store l url n (after k s)).0 ≡ some p
      → connect_loop l m url n s ≡ (connected p, (new_store l url n (after k s)).1)
  unfolding connect_loop
  connect_loop-connected zero k s p lt h got = absurd (omega arith)
  connect_loop-connected (suc m) zero s p lt h got = rw (got, connect_loop) refl
  connect_loop-connected (suc m) (suc k) s p lt (down, going, h) got =
      rw (down, going, connect_loop) (connect_loop-connected m k (round s) p (omega arith) h got)

  -- A database that comes up before the 30 attempts are over is connected to: where fewer than 30
  -- attempts fail, none of the waits is cancelled, and the next attempt succeeds, its store is
  -- returned.
  pub connect_with_retry-connected :
      (k : ℕ) (s : S) (p : Pool)
      → k < 30
      → Failing k s
      → (new_store l url n (after k s)).0 ≡ some p
      → connect_with_retry l url n s ≡ (connected p, (new_store l url n (after k s)).1)
  unfolding connect_with_retry
  connect_with_retry-connected k s p lt h got = connect_loop-connected attempts k s p lt h got
