-- ===== src/Storage/GlobalSettings.antt =====
-- storage/settings.go
use re_mazarin.Common.{Bool, true, false, Option, none, some, if◌then◌else◌, or_else}
use re_mazarin.Common.Int.{ℤ, pos, is_nonpos}
use re_mazarin.Common.Time.{hours}
use re_mazarin.Storage.{Storage, Settings}

-- Settings.SessionDur
unfoldable pub session_dur : Settings → ℤ
session_dur s =
    hours (if is_nonpos s.session_duration_hours then pos 168 else s.session_duration_hours)

abbrev pub default_settings : Settings
default_settings = record { session_duration_hours = pos 168; renew_on_access = true }

-- The defaults when the query fails or the row is missing; the error is always nil.
unfoldable pub get_settings : Storage → Settings
get_settings s = if s.reachable then or_else s.settings default_settings else default_settings

set_settings : Option Settings → Settings → Option Settings
set_settings none st = none
set_settings (some _) st = some st

-- UPDATE … WHERE id = 1: no row, no change.
unfoldable pub update_settings : Storage → ℤ → Bool → Storage × Bool
unfolding set_settings
update_settings s duration_hours renew =
    let h = if is_nonpos duration_hours then pos 168 else duration_hours in
    if s.reachable
    then (
      record s {
        settings =
            set_settings s.settings
              (record { session_duration_hours = h; renew_on_access = renew });
      },
      true,
    )
    else (s, false)
