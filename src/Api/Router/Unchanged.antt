-- ===== src/Api/Router/Unchanged.antt =====
-- The health probe and the channels change no table.
use cryo_lab_telemetry.Prelude.{◌≡◌, inl, inr, Option-cases}
use cryo_lab_telemetry.Store.World.{World}
use cryo_lab_telemetry.Store.Reads.{Reads, ping, channels}
use cryo_lab_telemetry.Store.Reads.Latest.{channels-tables}
use cryo_lab_telemetry.Api.Ops.{handle_health, handle_channels}

module _ (w : World) (q : Reads w) where
  open w use {State, tables}

  pub handle_health-tables : (s : State) → tables (handle_health w q s).1 ≡ tables s
  unfolding handle_health ping
  handle_health-tables s = elim (Option-cases (q.ping s).0) [
    | inl failed ↦ rw (failed, handle_health) (q.ping_keeps s)
    | inr (_, up) ↦ rw (up, handle_health) (q.ping_keeps s)
  ]

  pub handle_channels-tables : (s : State) → tables (handle_channels w q s).1 ≡ tables s
  unfolding handle_channels
  handle_channels-tables s = elim (Option-cases (channels w q s).0) [
    | inl failed ↦ rw (failed, handle_channels) (channels-tables w q s)
    | inr (_, got) ↦ rw (got, handle_channels) (channels-tables w q s)
  ]
