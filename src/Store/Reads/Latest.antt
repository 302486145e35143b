-- ===== src/Store/Reads/Latest.antt =====
-- What the reads say of the stored rows.
use mathlib.Core.Path.{subst}
use mathlib.Core.List.{Memᴰ, append-nil, append_assoc}
use cryo_lab_telemetry.Prelude.{
  ◌≡◌, ◌≢◌, ◌∙◌, refl, sym, ap, ◌⊎◌, inl, inr, Text, text_eq, text_eq_iff, Map, IsMap, lookup,
  insert, lookup-insert, insert-IsMap, Option, none, some, List, [], ◌∷◌, ◌++◌, map, arith,
  Option-cases, Bool-cases, false,
}
use cryo_lab_telemetry.Prelude.Int.{ℤ, ◌≤ℤ◌}
use cryo_lab_telemetry.Values.{Time}
use cryo_lab_telemetry.Store.Data.{Row, Channel}
use cryo_lab_telemetry.Store.World.{World}
use cryo_lab_telemetry.Store.Reads.{
  SameChannel, IsLastSeen, Reads, collect_channels, collect_last_seen, channels, source_last_seen,
}

abbrev pub to_channel : (ℤ → Time) → Row → Channel
to_channel instant r = record {
  source = r.source;
  metric = r.metric;
  last_ts = instant r.stamp;
  last_value = r.value;
}

collect_channels-eq-append :
    (instant : ℤ → Time) (rows : List Row) (out : List Channel)
    → collect_channels instant rows out ≡ out ++ map (to_channel instant) rows
unfolding collect_channels
collect_channels-eq-append instant [] out = sym (append-nil out)
collect_channels-eq-append instant (r ∷ rows) out =
    collect_channels-eq-append instant rows (out ++ to_channel instant r ∷ [])
    ∙ append_assoc out (to_channel instant r ∷ []) (map (to_channel instant) rows)

collect_last_seen-IsMap :
    (instant : ℤ → Time) (l : List (Text × ℤ)) (out : Map Time)
    → IsMap out
    → IsMap (collect_last_seen instant l out)
unfolding collect_last_seen
collect_last_seen-IsMap instant [] out h = h
collect_last_seen-IsMap instant ((src, ts) ∷ l) out h =
    collect_last_seen-IsMap instant l _ (insert-IsMap src (instant ts) out h)

-- An entry of the collected map is that of a row, or was there before.
collect_last_seen-cases :
    (instant : ℤ → Time) (l : List (Text × ℤ)) (out : Map Time) (src : Text)
    → ((m : ℤ) × Memᴰ (src, m) l
        × (lookup src (collect_last_seen instant l out) ≡ some (instant m)))
      ⊎ (((m : ℤ) → ¬ Memᴰ (src, m) l)
          × (lookup src (collect_last_seen instant l out) ≡ lookup src out))
unfolding collect_last_seen
collect_last_seen-cases instant [] out src = inr (λ m h. elim h [ ], refl)
collect_last_seen-cases instant ((k, ts) ∷ l) out src =
    elim (collect_last_seen-cases instant l (insert k (instant ts) out) src) [
      | inl (m, i, e) ↦ inl (m, Memᴰ.tail i, e)
      | inr (missing, e) ↦ elim (Bool-cases (text_eq k src)) [
        | inl same ↦ inl (
          ts,
          Memᴰ.head (ground (arith, text_eq_iff k src)),
          e ∙ lookup-insert k src (instant ts) out ∙ rw same refl,
        )
        | inr other ↦
            inr (not_in other missing, e ∙ lookup-insert k src (instant ts) out ∙ rw other refl)
      ]
    ]
  where
    not_in :
        text_eq k src ≡ false
        → ((m : ℤ) → ¬ Memᴰ (src, m) l)
        → (m : ℤ) → ¬ Memᴰ (src, m) ((k, ts) ∷ l)
    not_in other missing m (Memᴰ.head e) =
        ground (arith, text_eq_iff k src, ap (λ (p : Text × ℤ). p.0) e)
    not_in other missing m (Memᴰ.tail i) = missing m i

mem_map : (f : Row → Channel) (x : Row) (l : List Row) → Memᴰ x l → Memᴰ (f x) (map f l)
mem_map f x [] h = elim h [ ]
mem_map f x (y ∷ l) (Memᴰ.head e) = Memᴰ.head (ap f e)
mem_map f x (y ∷ l) (Memᴰ.tail i) = Memᴰ.tail (mem_map f x l i)

mem_of_map :
    (f : Row → Channel) (c : Channel) (l : List Row)
    → Memᴰ c (map f l)
    → (x : Row) × Memᴰ x l × (c ≡ f x)
mem_of_map f c [] h = elim h [ ]
mem_of_map f c (y ∷ l) (Memᴰ.head e) = (y, Memᴰ.head refl, e)
mem_of_map f c (y ∷ l) (Memᴰ.tail i) = let (x, j, e) = mem_of_map f c l i in (x, Memᴰ.tail j, e)

-- The newest row of a source, or that there is none.
abbrev pub NewestOf : (ℤ → Time) → List Row → Text → Option Time → Type 0
NewestOf instant rows src o =
    ((r : Row) × Memᴰ r rows
      × (r.source ≡ src)
      × (o ≡ some (instant r.stamp))
      × ((x : Row) → Memᴰ x rows → x.source ≡ src → x.stamp ≤ℤ r.stamp))
    ⊎ ((o ≡ none) × ((x : Row) → Memᴰ x rows → x.source ≢ src))

-- The channels that `Channels` answers: each is a stored row that no row of its source and
-- metric is newer than, and each stored row has the channel of its source and metric among them.
pub record IsChannels (instant : ℤ → Time) (rows : List Row) (l : List Channel) : Type 0 where
  pub stored :
      (c : Channel)
      → Memᴰ c l
      → (r : Row) × Memᴰ r rows
        × (c ≡ to_channel instant r)
        × ((x : Row) → Memᴰ x rows → SameChannel x r → x.stamp ≤ℤ r.stamp)
  pub every :
      (x : Row)
      → Memᴰ x rows
      → (c : Channel) × Memᴰ c l
        × (c.source ≡ x.source)
        × (c.metric ≡ x.metric)
        × (instant x.stamp ≤ℤ c.last_ts)

module _ (w : World) (q : Reads w) where
  pub source_last_seen-tables : (s : w.State) → w.tables (source_last_seen w q s).1 ≡ w.tables s
  unfolding source_last_seen
  source_last_seen-tables s = elim (Option-cases (q.select_last_seen s).0) [
    | inl failed ↦ rw (failed, source_last_seen) (q.last_seen_keeps s)
    | inr (l, got) ↦ rw (got, source_last_seen) (q.last_seen_keeps s)
  ]

  pub channels-tables : (s : w.State) → w.tables (channels w q s).1 ≡ w.tables s
  unfolding channels
  channels-tables s = elim (Option-cases (q.select_channels s).0) [
    | inl failed ↦ rw (failed, channels) (q.channels_keeps s)
    | inr (l, got) ↦ rw (got, channels) (q.channels_keeps s)
  ]

  newest_of :
      (rows : List Row) (l : List (Text × ℤ)) (src : Text)
      → IsLastSeen rows l
      → NewestOf q.instant rows src (lookup src (collect_last_seen q.instant l []))
  unfolding lookup
  newest_of rows l src h = elim (collect_last_seen-cases q.instant l [] src) [
    | inl (m, i, e) ↦
        let (r, stored, of_src, at) = h.reached src m i in
        inl (
          r,
          stored,
          of_src,
          e ∙ ap (λ (t : ℤ). some (q.instant t)) (sym at),
          λ x k same.
              let (n, j, le) = h.every x k in
              let one : m ≡ n = h.one_each src m n i (subst (λ t. Memᴰ (t, n) l) same j) in
              subst (λ t. x.stamp ≤ℤ t) (sym one ∙ sym at) le,
        )
    | inr (missing, e) ↦ inr (
      e,
      λ x k same. let (n, j, _) = h.every x k in missing n (subst (λ t. Memᴰ (t, n) l) same j),
    )
  ]

  source_last_seen-rows :
      (s : w.State) (m : Map Time)
      → (source_last_seen w q s).0 ≡ some m
      → (l : List (Text × ℤ)) × ((q.select_last_seen s).0 ≡ some l)
        × (collect_last_seen q.instant l [] ≡ m)
  unfolding source_last_seen
  source_last_seen-rows s m e = elim (Option-cases (q.select_last_seen s).0) [
    | inl failed ↦ cc (rw (failed, source_last_seen) at e)
    | inr (l, got) ↦ (l, got, cc (rw (got, source_last_seen) at e))
  ]

  pub source_last_seen-IsMap :
      (s : w.State) (m : Map Time) → (source_last_seen w q s).0 ≡ some m → IsMap m
  source_last_seen-IsMap s m e =
      let (l, _, same) = source_last_seen-rows s m e in
      subst (λ x. IsMap x) same (collect_last_seen-IsMap q.instant l [] tt)

  -- The map has, for each source, the time of its newest row, and nothing for a source without one.
  pub source_last_seen-NewestOf :
      (s : w.State) (m : Map Time) (src : Text)
      → (source_last_seen w q s).0 ≡ some m
      → NewestOf q.instant (w.tables s).readings src (lookup src m)
  source_last_seen-NewestOf s m src e =
      let (l, got, same) = source_last_seen-rows s m e in
      subst (λ x. NewestOf q.instant (w.tables s).readings src (lookup src x)) same
        (newest_of (w.tables s).readings l src (q.last_seen_law s l got))

  channels-rows :
      (s : w.State) (l : List Channel)
      → (channels w q s).0 ≡ some l
      → (rows : List Row) × ((q.select_channels s).0 ≡ some rows)
        × (map (to_channel q.instant) rows ≡ l)
  unfolding channels
  channels-rows s l e = elim (Option-cases (q.select_channels s).0) [
    | inl failed ↦ cc (rw (failed, channels) at e)
    | inr (rows, got) ↦ (
      rows,
      got,
      sym (collect_channels-eq-append q.instant rows []) ∙ cc (rw (got, channels) at e),
    )
  ]

  -- What `Channels` answers, where its query succeeds.
  pub channels-IsChannels :
      (s : w.State) (l : List Channel)
      → (channels w q s).0 ≡ some l
      → IsChannels q.instant (w.tables s).readings l
  channels-IsChannels s l e =
      let (rows, got, same) = channels-rows s l e in
      let law = q.channels_law s rows got in
      subst (IsChannels q.instant (w.tables s).readings) same (record {
        stored = λ c i.
            let (r, j, e') = mem_of_map (to_channel q.instant) c rows i in
            (
              r,
              law.stored r j,
              e',
              λ x k same_channel.
                  let (y, at, (src, met), le) = law.newest x k in
                  let one : y ≡ r =
                    law.one_each y r at j (src ∙ same_channel.0, met ∙ same_channel.1) in
                  subst (λ (z : Row). x.stamp ≤ℤ z.stamp) one le,
            );
        every = λ x k.
            let (y, at, (src, met), le) = law.newest x k in
            (
              to_channel q.instant y,
              mem_map (to_channel q.instant) y rows at,
              src,
              met,
              q.instant_mono _ _ le,
            );
      })
