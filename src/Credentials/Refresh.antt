-- ===== src/Credentials/Refresh.antt =====
-- `check_refresh` of credentials.py: when a value with an expiry time is refreshed.
use aiodynamo.Prelude.{ℕ, ◌+◌, ◌-◌, ◌*◌, ◌≤◌, ◌<◌, ◌≡◌, ◌↔◌, arith, ltb, leb, if◌then◌else◌}

pub data Refresh : Type 0 where
  required soon not_required : Refresh

-- `EXPIRED_THRESHOLD` and `EXPIRES_SOON_THRESHOLD`, in seconds.
abbrev pub expired_threshold : ℕ
expired_threshold = 10 * 60

abbrev pub expires_soon_threshold : ℕ
expires_soon_threshold = 15 * 60

-- `check_refresh(expires)` at `now`, times in seconds.
unfoldable pub check_refresh : ℕ → ℕ → Refresh
check_refresh now expires =
    if leb expires now
    then required
    else if ltb (expires - now) expired_threshold
    then required
    else if ltb (expires - now) expires_soon_threshold
    then soon
    else not_required

-- A value is required to be refreshed exactly in the last ten minutes before it expires and later,
-- and refreshed early exactly in the five minutes before those.
check_refresh_lem :
    (now expires : ℕ)
    → ((check_refresh now expires ≡ required) ↔ (expires < now + expired_threshold))
      × ((check_refresh now expires ≡ soon)
          ↔ ((now + expired_threshold ≤ expires) × (expires < now + expires_soon_threshold)))
unfolding check_refresh
check_refresh_lem now expires = ground arith
