-- ===== src/Alert/Firing/Reload.antt =====
-- What a reload brings into the alerter.
use mathlib.Core.List.{Memᴰ}
use mathlib.Core.Path.{subst}
use cryo_lab_telemetry.Prelude.{
  ◌≡◌, ◌≢◌, refl, sym, ap, ◌∙◌, ◌⊎◌, inl, inr, Text, text_eq, text_eq_iff, Map, lookup, insert,
  lookup-insert, Option, none, some, List, [], ◌∷◌, false, Bool-cases, Option-cases, arith,
  if◌then◌else◌,
}
use cryo_lab_telemetry.Prelude.Int.{ℤ, pos, leb_ℤ}
use cryo_lab_telemetry.Prelude.Decimal.{atoi}
use cryo_lab_telemetry.Store.Data.{Threshold, Tables}
use cryo_lab_telemetry.Store.World.{World}
use cryo_lab_telemetry.Store.Settings.{found, get_thresholds, get_config_value}
use cryo_lab_telemetry.Alert.{Alerter}
use cryo_lab_telemetry.Alert.Firing.{by_metric, reload, max_emails_config_key, parsed, with_cap}

absent-cons :
    (k : Text) (t : Threshold) (ts : List Threshold)
    → text_eq t.metric k ≡ false
    → ((x : Threshold) → Memᴰ x ts → x.metric ≢ k)
    → (x : Threshold) → Memᴰ x (t ∷ ts)
    → x.metric ≢ k
absent-cons k t ts other fresh x (Memᴰ.head e) p = ground (arith, text_eq_iff t.metric k)
absent-cons k t ts other fresh x (Memᴰ.tail i) p = fresh x i p

lookup-by_metric :
    (k : Text) (l : List Threshold) (m : Map Threshold)
    → ((lookup k (by_metric m l) ≡ lookup k m) × ((x : Threshold) → Memᴰ x l → x.metric ≢ k))
      ⊎ ((x : Threshold) × Memᴰ x l × (x.metric ≡ k) × (lookup k (by_metric m l) ≡ some x))
unfolding by_metric
lookup-by_metric k [] m = inl (refl, λ x h. elim h [ ])
lookup-by_metric k (t ∷ ts) m = elim (lookup-by_metric k ts (insert t.metric t m)) [
  | inr (x, i, e, h) ↦ inr (x, Memᴰ.tail i, e, h)
  | inl (h, fresh) ↦ elim (Bool-cases (text_eq t.metric k)) [
    | inl same ↦
        inr (
          t,
          Memᴰ.head refl,
          (text_eq_iff _ _).0 same,
          h ∙ lookup-insert t.metric k t m ∙ (rw same),
        )
    | inr other ↦
        inl (h ∙ lookup-insert t.metric k t m ∙ (rw other), absent-cons k t ts other fresh)
  ]
]

-- The rows of one SELECT, gathered by metric, are the table.
lookup-select :
    (w : World) (s : w.State) (l : List Threshold) (k : Text)
    → (w.select_thresholds s).0 ≡ some l
    → lookup k (by_metric [] l) ≡ (w.tables s).thresholds k
unfolding lookup
lookup-select w s l k got = elim (lookup-by_metric k l []) [
  | inr (x, i, e, h) ↦ h ∙ rw (← e) (sym ((w.select_thresholds_law s l x got).0 i))
  | inl (h, fresh) ↦ elim (Option-cases ((w.tables s).thresholds k)) [
    | inl missing ↦ h ∙ sym missing
    | inr (x, found) ↦
        let key = w.thresholds_key s k x found in
        absurd (
          fresh x
            ((w.select_thresholds_law s l x got).1
              (subst (λ j. (w.tables s).thresholds j ≡ some x) (sym key) found))
            key)
  ]
]

-- The cap that a stored text sets; one that is no number, or negative, sets none.
abbrev pub stored_cap : Option Text → ℤ → ℤ
stored_cap none old = old
stored_cap (some v) old = elim (atoi v) [ none ↦ old | some n ↦ if leb_ℤ (pos 0) n then n else old ]

with_cap_keeps :
    (a : Alerter) (n : Option ℤ)
    → let r = with_cap a n in
      (r.thresholds ≡ a.thresholds)
      × (r.state ≡ a.state)
      × (r.notify_day ≡ a.notify_day)
      × (r.notify_n ≡ a.notify_n)
with_cap_keeps a n = ground arith

with_cap-stored :
    (a : Alerter) (v : Option Text)
    → (with_cap a (parsed (found (some v)))).max_per_day ≡ stored_cap v a.max_per_day
with_cap-stored a none = refl
with_cap-stored a (some v) = ground arith

abbrev CapRead : (w : World) → w.State → w.State → ℤ → ℤ → Type 0
CapRead w s s' old new =
    (((w.select_config max_emails_config_key s').0 ≡ none) × (new ≡ old))
    ⊎ (new ≡ stored_cap ((w.tables s).config max_emails_config_key) old)

cap_read :
    (w : World) (a : Alerter) (s s' : w.State)
    → w.tables s' ≡ w.tables s
    → CapRead w s s' a.max_per_day
        (with_cap a (parsed (found (w.select_config max_emails_config_key s').0))).max_per_day
cap_read w a s s' same = elim (w.select_config_law max_emails_config_key s') [
  | inl (r, _) ↦ inr (
      rw r (
        with_cap-stored a _
        ∙ ap (λ (t : Tables). stored_cap (t.config max_emails_config_key) a.max_per_day) same))
  | inr (inl (r, _)) ↦ inl (r, rw r)
  | inr (inr (r, _)) ↦ inl (r, rw r)
]

-- A reload that reads the thresholds has exactly those of the table, by metric; one that reads the
-- cap too has the stored cap if that is a number that is not negative. It keeps the alarms and the
-- count of the day, and a reload that cannot read the thresholds keeps everything.
pub reload_lem :
    (w : World) (a : Alerter) (s : w.State)
    → let (ts, s') = get_thresholds w s in
      let r = (reload w a s).0 in
      ((ts ≡ none) × (r ≡ a))
      ⊎ (((k : Text) → lookup k r.thresholds ≡ (w.tables s).thresholds k)
          × ((r.state ≡ a.state) × (r.notify_day ≡ a.notify_day) × (r.notify_n ≡ a.notify_n))
          × ((((w.select_config max_emails_config_key s').0 ≡ none)
                × (r.max_per_day ≡ a.max_per_day))
              ⊎ (r.max_per_day
                  ≡ stored_cap ((w.tables s).config max_emails_config_key) a.max_per_day)))
unfolding reload get_thresholds get_config_value
reload_lem w a s = elim (Option-cases (w.select_thresholds s).0) [
  | inl failed ↦ rw (failed, reload) (inl (refl, refl))
  | inr (l, got) ↦
      let s' = (w.select_thresholds s).1 in
      let a' : Alerter = record a { thresholds = by_metric [] l } in
      let cap = parsed (found (w.select_config max_emails_config_key s').0) in
      let (thresholds, state, day, n) = with_cap_keeps a' cap in
      rw (got, reload)
        (inr (
          λ k. ap (lookup k) thresholds ∙ lookup-select w s l k got,
          (state, day, n),
          cap_read w a' s s' (w.select_thresholds_keeps s),
        ))
]
