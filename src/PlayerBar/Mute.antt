-- ===== src/PlayerBar/Mute.antt =====
-- Muting and unmuting.
use mc_service.Prelude.{ℕ, ◌≤◌, ◌<◌, ◌≡◌, refl, true, false, arith, ◌==◌}
use mc_service.Prelude.Int.{pos, ltb_ℤ}
use mc_service.Player.Transport.{set_volume, clamp_volume}
use mc_service.PlayerBar.Defs.{Bar, toggle_mute}

muted :
    (s : Bar) (v : ℕ)
    → s.world.player.volume ≡ pos v
    → 0 < v
    → ((toggle_mute s).world.player.volume ≡ pos 0) × ((toggle_mute s).prev_volume ≡ pos v)
unfolding toggle_mute set_volume clamp_volume
muted s v e above =
    let heard : ltb_ℤ (pos 0) s.world.player.volume ≡ true = rw e (ground arith) in
    rw heard (refl, e)

clamp_within : (v : ℕ) → v ≤ 1000 → clamp_volume (pos v) ≡ pos v
unfolding clamp_volume
clamp_within v below = ground arith

unmuted :
    (s : Bar) (v : ℕ)
    → s.world.player.volume ≡ pos 0
    → s.prev_volume ≡ pos v
    → 0 < v
    → v ≤ 1000
    → (toggle_mute s).world.player.volume ≡ pos v
unfolding toggle_mute set_volume
unmuted s v silent before above below =
    let some_volume : (v == 0) ≡ false = ground arith in
    rw (silent, before, some_volume) (clamp_within v below)

-- Muting sets the volume to 0, and the next toggle brings back the volume from before: where it lies
-- above 0 and not above 1, which is 1000 thousandths.
pub toggle_mute-toggle_mute :
    (s : Bar) (v : ℕ)
    → s.world.player.volume ≡ pos v
    → 0 < v
    → v ≤ 1000
    → ((toggle_mute s).world.player.volume ≡ pos 0)
      × ((toggle_mute (toggle_mute s)).world.player.volume ≡ pos v)
toggle_mute-toggle_mute s v e above below =
    let once = muted s v e above in (once.0, unmuted (toggle_mute s) v once.0 once.1 above below)
