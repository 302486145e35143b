-- ===== src/Bench/Read/Chosen.antt =====
-- What the read mode chooses to read, from the channels that the server lists.
use mathlib.Core.List.{Memᴰ}
use mathlib.Core.List.Memᴰ
use mathlib.Core.Path.{subst}
use cryo_lab_telemetry.Prelude.{
  ◌≡◌, ◌≢◌, ◌⊎◌, refl, sym, ap, ◌∙◌, inl, inr, Text, text_eq, text_eq_iff, is_empty, none, some,
  List, [], ◌∷◌, ◌++◌, ◌||◌, arith, Bool-cases, if◌then◌else◌,
}
use cryo_lab_telemetry.Prelude.Int.{ℤ}
use cryo_lab_telemetry.Values.{Time}
use cryo_lab_telemetry.Store.Data.{Row, Channel}
use cryo_lab_telemetry.Store.Reads.Latest.{IsChannels}
use cryo_lab_telemetry.Bench.Read.{listed, metrics_of_source, discover_channels, to_read}

-- A metric that is read from the source is that of a channel.
metrics_of_source-Memᴰ :
    (source m : Text) (cs : List Channel) (metrics : List Text)
    → Memᴰ m (metrics_of_source source cs metrics)
    → Memᴰ m metrics ⊎ ((c : Channel) × Memᴰ c cs × (c.source ≡ source) × (c.metric ≡ m))
unfolding metrics_of_source
metrics_of_source-Memᴰ source m [] metrics i = inl i
metrics_of_source-Memᴰ source m (c ∷ cs) metrics i = elim (Bool-cases (text_eq c.source source)) [
  | inl same ↦ elim (metrics_of_source-Memᴰ source m cs (metrics ++ c.metric ∷ []) (rw same at i)) [
    | inr (d, j, src, met) ↦ inr (d, Memᴰ.tail j, src, met)
    | inl j ↦ elim (Memᴰ.append_cases metrics j) [
      | inl old ↦ inl old
      | inr new ↦ inr (c, Memᴰ.head refl, (text_eq_iff c.source source).0 same, only new)
    ]
  ]
  | inr other ↦ elim (metrics_of_source-Memᴰ source m cs metrics (rw other at i)) [
    | inr (d, j, src, met) ↦ inr (d, Memᴰ.tail j, src, met)
    | inl j ↦ inl j
  ]
]
  where
    only : Memᴰ m (c.metric ∷ []) → c.metric ≡ m
    only (Memᴰ.head e) = sym e
    only (Memᴰ.tail k) = elim k [ ]

only_one : {A : Type 0} (x y : A) → Memᴰ x (y ∷ []) → x ≡ y
only_one x y (Memᴰ.head e) = e
only_one x y (Memᴰ.tail i) = elim i [ ]

-- What the test behind the choice lets through.
passed-cases :
    (p : Text × List Text) (source : Text) (metrics : List Text)
    → (if is_empty p.0 || is_empty p.1 then none else some p) ≡ some (source, metrics)
    → (source ≢ []) × (p ≡ (source, metrics))
passed-cases (s, ms) source metrics e = (ground (arith, e), ground (arith, e))

module _ (instant : ℤ → Time) (rows : List Row) where
  -- a stored reading of the source and the metric
  abbrev pub IsStored : Text → Text → Type 0
  IsStored source m = (r : Row) × Memᴰ r rows × (r.source ≡ source) × (r.metric ≡ m)

  discover_channels-IsStored :
      (cs : List Channel) (m : Text)
      → IsChannels instant rows cs
      → Memᴰ m (discover_channels (listed cs)).1
      → IsStored (discover_channels (listed cs)).0 m
  unfolding discover_channels
  discover_channels-IsStored [] m all i = elim i [ ]
  discover_channels-IsStored (c ∷ cs) m all i =
      elim (metrics_of_source-Memᴰ c.source m (c ∷ cs) [] i) [
        | inl none_yet ↦ elim none_yet [ ]
        | inr (d, j, src, met) ↦
            let (r, k, e, _) = all.stored d j in
            (
              r,
              k,
              sym (ap (λ (x : Channel). x.source) e) ∙ src,
              sym (ap (λ (x : Channel). x.metric) e) ∙ met,
            )
      ]

  -- Where the read mode does not exit, what it reads has names: those of the flags, or those of a
  -- stored reading.
  pub to_read-cases :
      (cs : List Channel) (source_flag metric_flag source m : Text) (metrics : List Text)
      → IsChannels instant rows cs
      → to_read source_flag metric_flag (listed cs) ≡ some (source, metrics)
      → Memᴰ m metrics
      → (source ≢ [])
        × (((m ≢ []) × (source ≡ source_flag) × (m ≡ metric_flag)) ⊎ IsStored source m)
  unfolding to_read
  to_read-cases cs source_flag metric_flag source m metrics all e i =
      elim (Bool-cases (is_empty source_flag || is_empty metric_flag)) [
        | inl missing ↦
            let (named, same) =
              passed-cases (discover_channels (listed cs)) source metrics (rw missing at e) in
            (
              named,
              inr (
                  subst (λ (p : Text × List Text). Memᴰ m p.1 → IsStored p.0 m) same
                    (discover_channels-IsStored cs m all) i),
            )
        | inr given ↦
            let (named, same) =
              passed-cases (source_flag, metric_flag ∷ []) source metrics (rw given at e) in
            let one =
              only_one m metric_flag (subst (λ (p : Text × List Text). Memᴰ m p.1) (sym same) i) in
            (
              named,
              inl (ground (arith, given, one), sym (ap (λ (p : Text × List Text). p.0) same), one),
            )
      ]
