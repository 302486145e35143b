-- ===== src/Api/Config/Current.antt =====
-- What reading the configuration returns.
use mathlib.Core.List.{Memᴰ}
use mathlib.Core.Path.{subst}
use cryo_lab_telemetry.Prelude.{
  ◌≡◌, ◌↔◌, refl, ap, ◌∙◌, ◌⊎◌, inl, inr, Text, Option, none, some, Option-cases,
}
use cryo_lab_telemetry.Prelude.Int.{ℤ, pos}
use cryo_lab_telemetry.Store.Data.{Threshold, Tables}
use cryo_lab_telemetry.Store.World.{World}
use cryo_lab_telemetry.Store.Settings.{found, get_config_value, get_thresholds}
use cryo_lab_telemetry.Api.Http.{ConfigPayload}
use cryo_lab_telemetry.Api.Config.{sampling_interval_key, max_emails_key, number_or, current_config}

same_payload : (p q : ConfigPayload) → some p ≡ some q → p ≡ q
same_payload p q e = cc

module _ (w : World) where
  open w use {State, tables}

  get_config_value-tables : (k : Text) (s : State) → tables (get_config_value w k s).1 ≡ tables s
  unfolding get_config_value
  get_config_value-tables k s = elim (w.select_config_law k s) [
    | inl (_, u) ↦ u
    | inr (inl (_, u)) ↦ u
    | inr (inr (_, u)) ↦ u
  ]

  -- A value that is read is the stored one; else the row is missing, or the statement has failed.
  get_config_value-found :
      (k : Text) (s : State)
      → ((get_config_value w k s).0 ≡ (tables s).config k) ⊎ ((get_config_value w k s).0 ≡ none)
  unfolding get_config_value
  get_config_value-found k s = elim (w.select_config_law k s) [
    | inl (r, _) ↦ inl (rw r (flat ((tables s).config k)))
    | inr (inl (r, _)) ↦ inr (rw r)
    | inr (inr (r, _)) ↦ inr (rw r)
  ]
    where
      flat : (o : Option Text) → found (some o) ≡ o
      flat none = refl
      flat (some v) = refl

  pub current_config-tables : (s : State) → tables (current_config w s).1 ≡ tables s
  unfolding current_config get_thresholds
  current_config-tables s =
      let s1 = (get_config_value w sampling_interval_key s).1 in
      let s2 = (get_config_value w max_emails_key s1).1 in
      let kept : tables (w.select_thresholds s2).1 ≡ tables s =
        w.select_thresholds_keeps s2
        ∙ get_config_value-tables max_emails_key s1
        ∙ get_config_value-tables sampling_interval_key s in
      elim (Option-cases (w.select_thresholds s2).0) [
        | inl failed ↦ rw (failed, current_config) kept
        | inr (l, got) ↦ rw (got, current_config) kept
      ]

  -- A payload that says of the tables `t` what they hold, but for a number whose row could not be
  -- read, which has its default.
  abbrev Shows : Tables → ConfigPayload → Type 0
  Shows t p =
      ((p.sampling_interval_seconds ≡ number_or (pos 5) (t.config sampling_interval_key))
        ⊎ (p.sampling_interval_seconds ≡ pos 5))
      × ((p.alert_max_emails_per_day ≡ number_or (pos 6) (t.config max_emails_key))
          ⊎ (p.alert_max_emails_per_day ≡ pos 6))
      × ((x : Threshold) → Memᴰ x p.thresholds ↔ (t.thresholds x.metric ≡ some x))

  number_read :
      (d : ℤ) (k : Text) (s : State) (t : Tables)
      → tables s ≡ t
      → (number_or d (get_config_value w k s).0 ≡ number_or d (t.config k))
        ⊎ (number_or d (get_config_value w k s).0 ≡ d)
  number_read d k s t e = elim (get_config_value-found k s) [
    | inl read ↦ inl (rw read (ap (λ (u : Tables). number_or d (u.config k)) e))
    | inr lost ↦ inr (rw lost)
  ]

  -- Each number of a payload is the stored one, or its default where the row could not be read;
  -- and the thresholds are the rows of the table.
  pub current_config_lem :
      (s : State) (p : ConfigPayload)
      → (current_config w s).0 ≡ some p
      → ((p.sampling_interval_seconds ≡ number_or (pos 5) ((tables s).config sampling_interval_key))
          ⊎ (p.sampling_interval_seconds ≡ pos 5))
        × ((p.alert_max_emails_per_day ≡ number_or (pos 6) ((tables s).config max_emails_key))
            ⊎ (p.alert_max_emails_per_day ≡ pos 6))
        × ((x : Threshold) → Memᴰ x p.thresholds ↔ ((tables s).thresholds x.metric ≡ some x))
  unfolding current_config get_thresholds
  current_config_lem s p e =
      let r1 = get_config_value w sampling_interval_key s in
      let r2 = get_config_value w max_emails_key r1.1 in
      let t1 : tables r1.1 ≡ tables s = get_config_value-tables sampling_interval_key s in
      let t2 : tables r2.1 ≡ tables s = get_config_value-tables max_emails_key r1.1 ∙ t1 in
      elim (Option-cases (w.select_thresholds r2.1).0) [
        | inl failed ↦ cc (rw (failed, current_config) at e)
        | inr (l, got) ↦
            subst (Shows (tables s)) (same_payload _ p (rw (got, current_config) at e)) (
              number_read (pos 5) sampling_interval_key s (tables s) refl,
              number_read (pos 6) max_emails_key r1.1 (tables s) t1,
              λ x. rw (← t2) (w.select_thresholds_law r2.1 l x got),
            )
      ]
