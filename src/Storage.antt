-- ===== src/Storage.antt =====
-- The tables of the database, as the package storage and its migrations declare them. A statement on
-- a database that is not `reachable` fails; no other fault of SQLite is modelled. Times count
-- nanoseconds from year 1, so the zero time of Go is 0. `NULL` is `none`.
pub mod Sessions
pub mod Throttle
pub mod GlobalSettings
pub mod Routes
pub mod Accounts
pub mod Activity
pub mod Seed
pub mod Migrations
use re_mazarin.Common.{ℕ, suc, ◌+◌, ◌-◌, ◌/◌, leb, String, Bool, Option, List}
use re_mazarin.Common.Int.{ℤ, pos, negsuc}

pub record User : Type 0 where
  pub id : ℕ
  pub username : String
  pub password_hash : String
  pub created_at : ℕ

pub record Group : Type 0 where
  pub id : ℕ
  pub name : String
  pub description : String
  pub created_at : ℕ

-- A row of user_groups.
pub record Membership : Type 0 where
  pub user_id : ℕ
  pub group_id : ℕ

-- A row of sessions.
pub record SessionRow : Type 0 where
  pub id : ℕ
  pub token_hash : String
  pub user_id : ℕ
  pub client_ip : String
  pub expires_at : ℕ
  pub created_at : ℕ

-- A row of invites.
pub record InviteRow : Type 0 where
  pub id : ℕ
  pub code_hash : String
  pub description : String
  pub used : Bool
  pub expires_at : ℕ
  pub created_at : ℕ

pub record Route : Type 0 where
  pub id : ℕ
  pub url : String
  pub target : String
  pub kind : String
  pub tls : Bool
  pub cert : String
  pub key : String
  pub enabled : Bool
  pub source : String
  pub allowed_groups : String
  pub allowed_ips : String
  pub ip_auth : Bool
  pub persistent_login : Bool
  pub require_login : Bool
  pub range_group : String

pub record Settings : Type 0 where
  pub session_duration_hours : ℤ
  pub renew_on_access : Bool

-- `rate_per_sec` counts millionths of a token per second.
pub record ThrottlePolicy : Type 0 where
  pub tier : String
  pub enabled : Bool
  pub rate_per_sec : ℤ
  pub burst : ℤ
  pub ban_enabled : Bool
  pub ban_threshold : ℤ
  pub ban_window_sec : ℤ
  pub ban_duration_sec : ℤ

-- The texts that `reason` holds: "auto: … failures within …s (…)" and "manual".
pub data Reason : Type 0 where
  auto : (threshold window_sec : ℤ) (tier : String) → Reason
  manual : Reason

pub record BannedIp : Type 0 where
  pub ip : String
  pub reason : Reason
  pub tier : String
  pub created_at : ℕ
  pub expires_at : Option ℕ

-- A row of access_log.
pub record AccessEvent : Type 0 where
  pub id : ℕ
  pub ip : String
  pub username : String
  pub route_url : String
  pub created_at : ℕ

-- A row of auth_failures.
pub record AuthFailure : Type 0 where
  pub id : ℕ
  pub ip : String
  pub username : String
  pub created_at : ℕ

pub record Storage : Type 0 where
  pub reachable : Bool
  pub users : List User
  pub groups : List Group
  pub user_groups : List Membership
  pub sessions : List SessionRow
  pub invites : List InviteRow
  pub proxy_routes : List Route
  pub settings : Option Settings
  pub throttle_policies : List ThrottlePolicy
  pub banned_ips : List BannedIp
  pub access_log : List AccessEvent
  pub auth_failures : List AuthFailure
  -- The counters of the AUTOINCREMENT keys.
  pub last_user : ℕ
  pub last_group : ℕ
  pub last_session : ℕ
  pub last_invite : ℕ
  pub last_route : ℕ
  pub last_access : ℕ
  pub last_failure : ℕ
  -- The nanoseconds by which the local clock is ahead of UTC: the driver stores an instant as the text of
  -- the local time.
  pub zone : ℤ

abbrev pub second : ℕ
second = 1000000000

-- The whole seconds that the local clock shows at an instant.
unfoldable pub local_second : (zone : ℤ) → ℕ → ℕ
local_second (pos z) t = (t + z) / second
local_second (negsuc z) t = (t - suc z) / second

-- t > datetime('now'): the text of the local time, as the driver stored it, against UTC in whole seconds.
-- Within one second the stored text is the greater one, since more follows the seconds.
unfoldable pub is_later : (zone : ℤ) (now t : ℕ) → Bool
unfolding local_second
is_later zone now t = leb (now / second) (local_second zone t)
