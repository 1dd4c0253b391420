-- ===== src/Oidc/Device/Granted.antt =====
-- What the login of src/oidc/device.rs has done when it comes to an end.
use axiam_rust_sdk.Prelude.{ℕ, ◌^◌, ◌<◌, ◌≡◌, ◌⊎◌, ok, err, Option, none, some, List, []}
use axiam_rust_sdk.Retry.{secs}
use axiam_rust_sdk.Oidc.Device.{DeviceAuthorization, new_schedule}
use axiam_rust_sdk.Oidc.Device.Login.{DeviceClient, Outcome, returned, panicked, Round}
use axiam_rust_sdk.Oidc.Device.Pacing.{PacedEnding}

-- A grant that was given, with the deadline of its loop, which is anchored after the code was shown, and
-- how the loop went on from there.
pub record Granted {W T : Type 0} (c : DeviceClient W T) (w : W) (outcome : Outcome T)
    (rounds : List Round) : Type 0 where
  pub authorization : DeviceAuthorization
  pub authorized : (c.authorize (c.discover w).1).0 ≡ ok authorization
  pub deadline : ℕ
  pub anchored :
      c.checked_add
        (c.now (c.on_user_code authorization (c.authorize (c.discover w).1).1)).0
        (secs authorization.expires_in)
      ≡ some deadline
  pub ending :
      PacedEnding c deadline
        (new_schedule authorization.interval authorization.expires_in).interval_secs
        (c.now (c.on_user_code authorization (c.authorize (c.discover w).1).1)).1
        outcome
        rounds

-- A login without a loop: the discovery or the grant failed, or the deadline has no instant.
abbrev pub Failed : {W T : Type 0} → DeviceClient W T → W → Outcome T → Type 0
Failed c w (returned (ok tokens)) = ⊥
Failed c w (returned (err e)) =
    ((c.discover w).0 ≡ err e) ⊎ ((c.authorize (c.discover w).1).0 ≡ err e)
Failed c w panicked =
    (a : DeviceAuthorization) × ((c.authorize (c.discover w).1).0 ≡ ok a)
    × (c.checked_add (c.now (c.on_user_code a (c.authorize (c.discover w).1).1)).0
          (secs a.expires_in)
        ≡ none)

module _ {W T : Type 0} (c : DeviceClient W T) (w : W) where
  abbrev GrantedEnd : Option (Outcome T × List Round × W) → Type 0
  GrantedEnd none = Unit
  GrantedEnd (some (outcome, rounds, w')) =
      Granted c w outcome rounds ⊎ ((rounds ≡ []) × Failed c w outcome)

  module _ (fuel : ℕ) (a : DeviceAuthorization)
      (authorized : (c.authorize (c.discover w).1).0 ≡ ok a) (small : a.interval < 2 ^ 64) where
    abbrev shown : W
    shown = c.on_user_code a (c.authorize (c.discover w).1).1
