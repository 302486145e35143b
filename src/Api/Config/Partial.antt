-- ===== src/Api/Config/Partial.antt =====
-- What a refused update leaves behind.
use cryo_lab_telemetry.Prelude.{
  text, ◌≡◌, ◌≢◌, refl, sym, ap, ◌∙◌, inl, inr, Option, none, some, true, false, ◌||◌, arith,
  Bool-cases,
}
use cryo_lab_telemetry.Prelude.Decimal.{itoa}
use cryo_lab_telemetry.Prelude.Int.{ℤ, pos, ltb_ℤ, eq_ℤ, eq_of_parts, ◌≤ℤ◌}
use cryo_lab_telemetry.Store.Data.{set_key}
use cryo_lab_telemetry.Store.World.{World}
use cryo_lab_telemetry.Store.Settings.{set_config_value}
use cryo_lab_telemetry.Api.Http.{ConfigPayload, Response, write_error, Server, decoded}
use cryo_lab_telemetry.Api.Config.{
  sampling_interval_key, Stage, store_number, put_interval, put_max_emails, put_thresholds,
  ◌andthen◌, put_stages, put_config,
}

unset_false : (n : ℤ) → n ≢ pos 0 → eq_ℤ n (pos 0) ≡ false
unset_false n h = elim (Bool-cases (eq_ℤ n (pos 0))) [
  | inl e ↦ absurd (h (eq_of_parts n (pos 0) (ground arith)))
  | inr e ↦ e
]

in_range_tests :
    (n : ℤ) → pos 1 ≤ℤ n → n ≤ℤ pos 3600 → (ltb_ℤ n (pos 1) || ltb_ℤ (pos 3600) n) ≡ false
in_range_tests n low high = ground arith

above_tests : (n : ℤ) → pos 1001 ≤ℤ n → (ltb_ℤ n (pos 1) || ltb_ℤ (pos 1000) n) ≡ true
above_tests n high = ground arith

above_set : (n : ℤ) → pos 1001 ≤ℤ n → eq_ℤ n (pos 0) ≡ false
above_set n high = ground arith

module _ (w : World) where
  open w use {State, tables}

  interval_stored :
      (n : ℤ) (s : State)
      → eq_ℤ n (pos 0) ≡ false
      → (ltb_ℤ n (pos 1) || ltb_ℤ (pos 3600) n) ≡ false
      → (w.upsert_config sampling_interval_key (itoa n) s).0 ≡ some tt
      → put_interval w n s ≡ (none, (w.upsert_config sampling_interval_key (itoa n) s).1)
  unfolding put_interval store_number set_config_value
  interval_stored n s set ok done = rw (set, ok, done, put_interval, store_number)

  cap_refused :
      (n : ℤ) (s : State)
      → eq_ℤ n (pos 0) ≡ false
      → (ltb_ℤ n (pos 1) || ltb_ℤ (pos 1000) n) ≡ true
      → put_max_emails w n s
        ≡ (some (write_error 400 (text "alert_max_emails_per_day must be 1..1000")), s)
  unfolding put_max_emails
  cap_refused n s set wrong = rw (set, wrong, put_max_emails)

  abbrev after_stage : Stage w → Option Response × State → Option Response × State
  after_stage k (r, s) = elim r [ some resp ↦ (some resp, s) | none ↦ k s ]

  andthen_go : (m k : Stage w) (s s' : State) → m s ≡ (none, s') → ◌andthen◌ w m k s ≡ k s'
  andthen_go m k s s' e = ap (after_stage k) e

  andthen_stop :
      (m k : Stage w) (s s' : State) (r : Response)
      → m s ≡ (some r, s')
      → ◌andthen◌ w m k s ≡ (some r, s')
  andthen_stop m k s s' r e = ap (after_stage k) e

  put_stages_stop :
      (req : ConfigPayload) (s : State)
      → let n = req.sampling_interval_seconds in
        let m = req.alert_max_emails_per_day in
        eq_ℤ n (pos 0) ≡ false
        → (ltb_ℤ n (pos 1) || ltb_ℤ (pos 3600) n) ≡ false
        → (w.upsert_config sampling_interval_key (itoa n) s).0 ≡ some tt
        → eq_ℤ m (pos 0) ≡ false
        → (ltb_ℤ m (pos 1) || ltb_ℤ (pos 1000) m) ≡ true
        → put_stages w req s ≡ (
          some (write_error 400 (text "alert_max_emails_per_day must be 1..1000")),
          (w.upsert_config sampling_interval_key (itoa n) s).1,
        )
  unfolding put_stages
  put_stages_stop req s set ok done set' wrong =
      let n = req.sampling_interval_seconds in
      let m = req.alert_max_emails_per_day in
      let s1 = (w.upsert_config sampling_interval_key (itoa n) s).1 in
      andthen_stop (◌andthen◌ w (put_interval w n) (put_max_emails w m))
        (put_thresholds w req.thresholds) s s1 _
        (andthen_go (put_interval w n) (put_max_emails w m) s s1 (interval_stored n s set ok done)
          ∙ cap_refused m s1 set' wrong)

  -- A request whose interval is valid and whose cap is above 1000 is answered 400; but where the
  -- interval could be written it has been, and the server, its alerter included, is as before.
  pub put_config-partial :
      (srv : Server) (req : ConfigPayload) (s : State)
      → req.sampling_interval_seconds ≢ pos 0
      → pos 1 ≤ℤ req.sampling_interval_seconds
      → req.sampling_interval_seconds ≤ℤ pos 3600
      → pos 1001 ≤ℤ req.alert_max_emails_per_day
      → (w.upsert_config sampling_interval_key (itoa req.sampling_interval_seconds) s).0 ≡ some tt
      → let h = put_config w srv (decoded req) s in
        let t = tables s in
        (h.response.status ≡ 400)
        × (h.server ≡ srv)
        × (tables h.world ≡ record t {
          config = set_key sampling_interval_key (itoa req.sampling_interval_seconds) t.config;
        })
  unfolding put_config
  put_config-partial srv req s set low high over done =
      let n = req.sampling_interval_seconds in
      let stop =
        put_stages_stop req s (unset_false n set) (in_range_tests n low high) done
          (above_set req.alert_max_emails_per_day over)
          (above_tests req.alert_max_emails_per_day over) in
      rw (stop, put_config)
        (refl, refl, ap (λ (p : Option Response × State). tables p.1) stop ∙ written n s done)
    where
      some_none : none ≡ some (tt {0}) → ⊥
      some_none e = cc

      written :
          (n : ℤ) (s : State)
          → (w.upsert_config sampling_interval_key (itoa n) s).0 ≡ some tt
          → let t = tables s in
            tables (w.upsert_config sampling_interval_key (itoa n) s).1
            ≡ record t { config = set_key sampling_interval_key (itoa n) t.config }
      written n s done = elim (w.upsert_config_law sampling_interval_key (itoa n) s) [
        | inl (_, u) ↦ u
        | inr (inl (r, _)) ↦ absurd (some_none (sym r ∙ done))
        | inr (inr (r, _)) ↦ absurd (some_none (sym r ∙ done))
      ]
