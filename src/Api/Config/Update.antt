-- ===== src/Api/Config/Update.antt =====
-- What an accepted update writes.
use mathlib.Core.List.{append_assoc}
use mathlib.Core.Path.{subst}
use cryo_lab_telemetry.Prelude.{
  Option, ◌≡◌, ◌≢◌, ◌⊎◌, refl, sym, ap, ◌∙◌, inl, inr, Text, text, none, some, List, [], ◌∷◌, ◌++◌,
  map, All-append, true, false, ◌||◌, Bool-cases, is_empty, if◌then◌else◌, ℕ, arith, All,
}
use cryo_lab_telemetry.Prelude.Decimal.{itoa}
use cryo_lab_telemetry.Prelude.Int.{ℤ, pos, eq_ℤ, ltb_ℤ, ◌≤ℤ◌, negsuc, eq_of_parts}
use cryo_lab_telemetry.Store.Data.{Threshold, Tables, set_key}
use cryo_lab_telemetry.Store.World.{World}
use cryo_lab_telemetry.Store.Settings.{set_config_value, upsert_threshold}
use cryo_lab_telemetry.Api.Http.{ConfigPayload, Response}
use cryo_lab_telemetry.Api.Config.{
  sampling_interval_key, max_emails_key, Stage, store_number, put_interval, put_max_emails,
  put_thresholds, ◌andthen◌, put_stages,
}

-- The configuration with a number written under its key; 0 leaves it unchanged.
abbrev pub with_number : Text → ℤ → Tables → Tables
with_number key n t =
    if eq_ℤ n (pos 0) then t else record t { config = set_key key (itoa n) t.config }

-- A part of a request: a number with its key and its greatest value, or a threshold.
pub data Part : Type 0 where
  number : Text → ℕ → ℤ → Part
  threshold : Threshold → Part

-- The parts of a request, in the order in which the handler takes them.
abbrev pub parts : ConfigPayload → List Part
parts req =
    number sampling_interval_key 3600 req.sampling_interval_seconds
    ∷ number max_emails_key 1000 req.alert_max_emails_per_day
    ∷ map threshold req.thresholds

-- the tables with a part written, and with a list of them
abbrev pub with_part : Part → Tables → Tables
with_part (number key top n) t = with_number key n t
with_part (threshold x) t = record t { thresholds = set_key x.metric x t.thresholds }

abbrev pub written : List Part → Tables → Tables
written [] t = t
written (p ∷ ps) t = written ps (with_part p t)

-- A number of a request that the handler takes: 0, which says nothing, or one in the range.
abbrev pub InRange : ℤ → ℤ → Type 0
InRange top n = (n ≡ pos 0) ⊎ ((pos 1 ≤ℤ n) × (n ≤ℤ top))

abbrev pub HasName : Threshold → Type 0
HasName t = t.metric ≢ []

-- A part that the handler has no reason to refuse.
abbrev pub IsValid : Part → Type 0
IsValid (number key top n) = InRange (pos top) n
IsValid (threshold x) = HasName x

written-append : (ps qs : List Part) (t : Tables) → written (ps ++ qs) t ≡ written qs (written ps t)
written-append [] qs t = refl
written-append (p ∷ ps) qs t = written-append ps qs (with_part p t)

InRange-of_tests :
    (top : ℕ) (n : ℤ) → (ltb_ℤ n (pos 1) || ltb_ℤ (pos top) n) ≡ false → InRange (pos top) n
InRange-of_tests top (pos n) h = inr (ground arith)
InRange-of_tests top (negsuc n) h = absurd (ground arith)

not_InRange-of_tests :
    (top : ℕ) (n : ℤ)
    → eq_ℤ n (pos 0) ≡ false
    → (ltb_ℤ n (pos 1) || ltb_ℤ (pos top) n) ≡ true
    → ¬ InRange (pos top) n
not_InRange-of_tests top n set h (inl e) = absurd (ground arith)
not_InRange-of_tests top (pos n) set h (inr k) = ground arith
not_InRange-of_tests top (negsuc n) set h (inr k) = ground arith

eq_zero : (n : ℤ) → eq_ℤ n (pos 0) ≡ true → n ≡ pos 0
eq_zero n h = eq_of_parts n (pos 0) (ground arith)

HasName-of_test : (t : Threshold) → is_empty t.metric ≡ false → HasName t
HasName-of_test t h e = ground arith

module _ (w : World) where
  open w use {State, tables}

  -- What the handler has done where it returns the response `r` amid the parts `ps`: those before
  -- the part `p` are valid and written; `p` is not valid and the response is 400; or it is valid,
  -- the response is 500, and `p` is not written, or is, and the answer of the database was lost.
  pub record Stopped (ps : List Part) (t u : Tables) (r : Response) : Type 0 where
    pub before : List Part
    pub part : Part
    pub after : List Part
    pub order : ps ≡ before ++ part ∷ after
    pub valid : All IsValid before
    pub reason :
        ((r.status ≡ 400) × (¬ IsValid part) × (u ≡ written before t))
        ⊎ ((r.status ≡ 500)
            × IsValid part
            × ((u ≡ written before t) ⊎ (u ≡ with_part part (written before t))))

  abbrev pub Done : List Part → Tables → Option Response × State → Type 0
  Done ps t out =
      ((out.0 ≡ none) × All IsValid ps × (tables out.1 ≡ written ps t))
      ⊎ ((r : Response) × (out.0 ≡ some r) × Stopped ps t (tables out.1) r)

  -- A stage of the handler either goes on, with its parts valid and written, or stops amid them.
  abbrev pub Does : Stage w → List Part → Type 0
  Does m ps = (s : State) → Done ps (tables s) (m s)

  -- One that stops at its first part.
  stops :
      (p : Part) (ps : List Part) (t u : Tables) (r : Response)
      → ((r.status ≡ 400) × (¬ IsValid p) × (u ≡ t))
        ⊎ ((r.status ≡ 500) × IsValid p × ((u ≡ t) ⊎ (u ≡ with_part p t)))
      → Stopped (p ∷ ps) t u r
  stops p ps t u r reason = record {
    before = [];
    part = p;
    after = ps;
    order = refl;
    valid = tt;
    reason = reason;
  }

  -- One that stops behind parts that are written.
  Stopped-after :
      (ps qs : List Part) (t t' u : Tables) (r : Response)
      → All IsValid ps
      → t' ≡ written ps t
      → Stopped qs t' u r
      → Stopped (ps ++ qs) t u r
  Stopped-after ps qs t t' u r ok e h =
      let at : written h.before t' ≡ written (ps ++ h.before) t =
        ap (written h.before) e ∙ sym (written-append ps h.before t) in
      record {
        before = ps ++ h.before;
        part = h.part;
        after = h.after;
        order = ap (λ l. ps ++ l) h.order ∙ sym (append_assoc ps h.before (h.part ∷ h.after));
        valid = All-append IsValid ps h.before ok h.valid;
        reason =
            subst
              (λ x.
                ((r.status ≡ 400) × (¬ IsValid h.part) × (u ≡ x))
                ⊎ ((r.status ≡ 500) × IsValid h.part × ((u ≡ x) ⊎ (u ≡ with_part h.part x))))
              at h.reason;
      }

  Stopped-before :
      (ps qs : List Part) (t u : Tables) (r : Response)
      → Stopped ps t u r
      → Stopped (ps ++ qs) t u r
  Stopped-before ps qs t u r h = record {
    before = h.before;
    part = h.part;
    after = h.after ++ qs;
    order = ap (λ l. l ++ qs) h.order ∙ append_assoc h.before (h.part ∷ h.after) qs;
    valid = h.valid;
    reason = h.reason;
  }

  Does-andthen :
      (m k : Stage w) (ps qs : List Part)
      → Does m ps
      → Does k qs
      → Does (◌andthen◌ w m k) (ps ++ qs)
  Does-andthen m k ps qs dm dk s = elim (dm s) [
    | inl (e, ok, u) ↦
        rw (e, ◌andthen◌)
          (elim (dk (m s).1) [
            | inl (e', ok', u') ↦ inl (
              e',
              All-append IsValid ps qs ok ok',
              u' ∙ ap (written qs) u ∙ sym (written-append ps qs (tables s)),
            )
            | inr (r, e', stop) ↦
                inr (r, e', Stopped-after ps qs (tables s) (tables (m s).1) _ r ok u stop)
          ])
    | inr (r, e, stop) ↦ rw (e, ◌andthen◌) (inr (r, refl, Stopped-before ps qs (tables s) _ r stop))
  ]

  store_number-Does :
      (key : Text) (top : ℕ) (n : ℤ) (msg : Text)
      → InRange (pos top) n
      → eq_ℤ n (pos 0) ≡ false
      → Does (store_number w key n msg) (number key top n ∷ [])
  unfolding store_number set_config_value
  store_number-Does key top n msg ok set s =
      let put : with_number key n (tables s)
          ≡ record (tables s) { config = set_key key (itoa n) (tables s).config } =
        rw set refl in
      elim (w.upsert_config_law key (itoa n) s) [
        | inl (r, u) ↦ rw (r, store_number) (inl (refl, (ok, tt), u ∙ sym put))
        | inr (inl (r, u)) ↦
            rw (r, store_number) (inr (_, refl, stops _ [] _ _ _ (inr (refl, ok, inl u))))
        | inr (inr (r, u)) ↦
            rw (r, store_number)
              (inr (_, refl, stops _ [] _ _ _ (inr (refl, ok, inr (u ∙ sym put)))))
      ]

  unset_part : (key : Text) (n : ℤ) (t : Tables) → eq_ℤ n (pos 0) ≡ true → t ≡ with_number key n t
  unset_part key n t unset = rw unset refl

  put_interval-Does : (n : ℤ) → Does (put_interval w n) (number sampling_interval_key 3600 n ∷ [])
  unfolding put_interval
  put_interval-Does n s = elim (Bool-cases (eq_ℤ n (pos 0))) [
    | inl unset ↦
        let e : put_interval w n s ≡ (none, s) = rw (unset, put_interval) in
        subst (Done _ (tables s)) (sym e) (
          inl (
            refl,
            (inl (eq_zero n unset), tt),
            unset_part sampling_interval_key n (tables s) unset,
          ))
    | inr set ↦ elim (Bool-cases (ltb_ℤ n (pos 1) || ltb_ℤ (pos 3600) n)) [
      | inl wrong ↦
          rw (set, wrong, put_interval)
            (inr
              (_, refl, stops _ [] _ _ _ (inl (refl, not_InRange-of_tests 3600 n set wrong, refl))))
      | inr ok ↦
          let e : put_interval w n s
              ≡ store_number w sampling_interval_key n (text "could not update interval") s =
            rw (set, ok, put_interval) in
          subst (Done _ (tables s)) (sym e)
            (store_number-Does sampling_interval_key 3600 n _ (InRange-of_tests 3600 n ok) set s)
    ]
  ]

  put_max_emails-Does : (n : ℤ) → Does (put_max_emails w n) (number max_emails_key 1000 n ∷ [])
  unfolding put_max_emails
  put_max_emails-Does n s = elim (Bool-cases (eq_ℤ n (pos 0))) [
    | inl unset ↦
        let e : put_max_emails w n s ≡ (none, s) = rw (unset, put_max_emails) in
        subst (Done _ (tables s)) (sym e)
          (inl (refl, (inl (eq_zero n unset), tt), unset_part max_emails_key n (tables s) unset))
    | inr set ↦ elim (Bool-cases (ltb_ℤ n (pos 1) || ltb_ℤ (pos 1000) n)) [
      | inl wrong ↦
          rw (set, wrong, put_max_emails)
            (inr
              (_, refl, stops _ [] _ _ _ (inl (refl, not_InRange-of_tests 1000 n set wrong, refl))))
      | inr ok ↦
          let e : put_max_emails w n s
              ≡ store_number w max_emails_key n (text "could not update email cap") s =
            rw (set, ok, put_max_emails) in
          subst (Done _ (tables s)) (sym e)
            (store_number-Does max_emails_key 1000 n _ (InRange-of_tests 1000 n ok) set s)
    ]
  ]

  put_thresholds-Does : (ts : List Threshold) → Does (put_thresholds w ts) (map threshold ts)
  unfolding put_thresholds upsert_threshold
  put_thresholds-Does [] s = inl (refl, tt, refl)
  put_thresholds-Does (t ∷ ts) s = elim (Bool-cases (is_empty t.metric)) [
    | inl nameless ↦
        rw (nameless, put_thresholds)
          (inr (_, refl, stops _ _ _ _ _ (inl (refl, (λ h. h (ground arith)), refl))))
    | inr named ↦
        let ok = HasName-of_test t named in
        let rest = put_thresholds-Does ts (w.upsert_threshold t s).1 in
        elim (w.upsert_threshold_law t s) [
          | inl (r, u) ↦
              rw (named, r, put_thresholds)
                (elim rest [
                  | inl (e, oks, u') ↦ inl (e, (ok, oks), u' ∙ ap (written (map threshold ts)) u)
                  | inr (r', e, stop) ↦ inr (
                    r',
                    e,
                    Stopped-after (threshold t ∷ []) (map threshold ts) (tables s) _ _ r' (ok, tt) u
                        stop,
                  )
                ])
          | inr (inl (r, u)) ↦
              rw (named, r, put_thresholds) (inr (_, refl, stops _ _ _ _ _ (inr (refl, ok, inl u))))
          | inr (inr (r, u)) ↦
              rw (named, r, put_thresholds) (inr (_, refl, stops _ _ _ _ _ (inr (refl, ok, inr u))))
        ]
  ]

  pub put_stages-Does : (req : ConfigPayload) → Does (put_stages w req) (parts req)
  unfolding put_stages
  put_stages-Does req =
      let n = req.sampling_interval_seconds in
      let m = req.alert_max_emails_per_day in
      Does-andthen _ (put_thresholds w req.thresholds)
        (number sampling_interval_key 3600 n ∷ number max_emails_key 1000 m ∷ [])
        (map threshold req.thresholds)
        (Does-andthen (put_interval w n) (put_max_emails w m)
          (number sampling_interval_key 3600 n ∷ []) (number max_emails_key 1000 m ∷ [])
          (put_interval-Does n) (put_max_emails-Does m))
        (put_thresholds-Does req.thresholds)
