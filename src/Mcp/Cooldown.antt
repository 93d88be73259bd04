-- ===== src/Mcp/Cooldown.antt =====
-- The cooldown of ovh_reboot, between calls that follow one another.
use serveo_api_golang.Prelude.{
  ℕ, ◌+◌, ◌<◌, ◌≡◌, Bool, true, none, some, arith, Bool-cases, Option-cases, inl, inr,
}
use serveo_api_golang.Text.{Str, codes, text_eq_refl}
use serveo_api_golang.Http.{Context}
use serveo_api_golang.Mcp.{
  permission_error, cooldown, is_cooling, Reboots, mark, Outside, Shared, reboot_path,
  cooldown_active, initiated, check, post_reboot, save_cooldowns, ovh_reboot,
}

is_cooling_since : (last now : ℕ) → now < last + cooldown → is_cooling (some last) now ≡ true
unfolding is_cooling
is_cooling_since last now h = ground arith

mark-same :
    (service : Str) (now : ℕ) (reboots : Reboots) → mark service now reboots service ≡ some now
unfolding mark
mark-same service now reboots = ground (arith, text_eq_refl service)

module _ {W : Type 0} (outside : Outside W) where
  ovh_reboot-marks :
      (ctx : Context) (available : Bool) (service : Str) (now later : ℕ) (s s' : Shared W)
      → ovh_reboot outside ctx available (some service) now later s ≡ (s', initiated)
      → (permission_error ctx (codes "ovh.write") ≡ none)
        × (available ≡ true)
        × (s'.last_reboot service ≡ some later)
  unfolding ovh_reboot check post_reboot save_cooldowns
  ovh_reboot-marks ctx available service now later s s' e =
      elim (Option-cases (permission_error ctx (codes "ovh.write"))) [
        | inr (f, refused) ↦ absurd (ground arith)
        | inl permitted ↦ elim (Bool-cases available) [
          | inr missing ↦ absurd (ground arith)
          | inl client ↦ elim (Bool-cases (is_cooling (s.last_reboot service) now)) [
            | inl cooling ↦ absurd (ground arith)
            | inr warm ↦ elim (Option-cases (outside.post (reboot_path service) s.world).1) [
              | inr (f, broken) ↦ absurd (ground arith)
              | inl posted ↦
                  (permitted, client, ground (arith, mark-same service later s.last_reboot))
            ]
          ]
        ]
      ]

  -- After an ovh_reboot that succeeds, the next ovh_reboot of the service by that user, less
  -- than 15 minutes after the time that was marked, is refused, posts nothing and changes
  -- nothing.
  pub ovh_reboot-cooldown :
      (ctx : Context) (available : Bool) (service : Str) (now later next after : ℕ)
      (s s' : Shared W)
      → ovh_reboot outside ctx available (some service) now later s ≡ (s', initiated)
      → next < later + cooldown
      → ovh_reboot outside ctx available (some service) next after s' ≡ (s', cooldown_active)
  unfolding ovh_reboot check
  ovh_reboot-cooldown ctx available service now later next after s s' e soon =
      let (permitted, client, marked) = ovh_reboot-marks ctx available service now later s s' e in
      ground (arith, is_cooling_since later next soon)
