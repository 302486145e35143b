-- ===== src/Prelude/Weights.antt =====
-- What holds of the threads of a run, and what is counted over them, when one of them moves.
use cryo_lab_telemetry.Prelude.{ℕ, ◌+◌, ◌≡◌, ap, List, [], ◌∷◌, ◌++◌, arith, All}

module _ {A : Type 0} where
  -- the sum of a weight over the threads
  abbrev pub weigh : (A → ℕ) → List A → ℕ
  weigh w [] = 0
  weigh w (p ∷ ps) = w p + weigh w ps

  pub weigh-middle :
      (w : A → ℕ) (before after : List A) (p : A)
      → weigh w (before ++ p ∷ after) ≡ weigh w before + weigh w after + w p
  weigh-middle w [] after p = omega arith
  weigh-middle w (q ∷ before) after p = omega (arith, weigh-middle w before after p)

  pub weigh-append : (w : A → ℕ) (ps qs : List A) → weigh w (ps ++ qs) ≡ weigh w ps + weigh w qs
  weigh-append w [] qs = omega arith
  weigh-append w (p ∷ ps) qs = omega (arith, weigh-append w ps qs)

  -- Where one thread moves, the weight changes by that of the thread.
  pub weigh-move :
      (w : A → ℕ) (ts before after : List A) (p q : A)
      → ts ≡ before ++ p ∷ after
      → weigh w (before ++ q ∷ after) + w p ≡ weigh w ts + w q
  weigh-move w ts before after p q e =
      omega (arith, ap (weigh w) e, weigh-middle w before after p, weigh-middle w before after q)

module _ {A : Type 0} (P Q : A → Type 0) (weaken : (x : A) → P x → Q x) where
  All-weaken : (l : List A) → All P l → All Q l
  All-weaken [] h = tt
  All-weaken (x ∷ l) (p, h) = (weaken x p, All-weaken l h)

  -- One thread moves, and what holds of the others still gives what is to hold.
  pub All-move :
      (before after : List A) (p q : A)
      → All P (before ++ p ∷ after)
      → Q q
      → All Q (before ++ q ∷ after)
  All-move [] after p q (h, hs) new = (new, All-weaken after hs)
  All-move (x ∷ before) after p q (h, hs) new = (weaken x h, All-move before after p q hs new)

module _ {A : Type 0} (P : A → Type 0) where
  -- that of one thread
  pub All-at : (before after : List A) (p : A) → All P (before ++ p ∷ after) → P p
  All-at [] after p (h, hs) = h
  All-at (x ∷ before) after p (h, hs) = All-at before after p hs
