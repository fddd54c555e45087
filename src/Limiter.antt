-- ===== src/Limiter.antt =====
-- proxy/limiter.go: token buckets, automatic bans and the ban set, all by client IP. `now` is what
-- `time.Now()` returned. Each operation is one step: the source holds a lock around each part.
-- A float64 is exact here: a rate counts millionths of a token per second, and a bucket's tokens
-- count units of which `token` make one token, so that rate times nanoseconds is in units.
pub mod Bans
pub mod Tiers
pub mod Persistence
pub mod Bucket
pub mod Failures
mod Tests
use re_mazarin.Common.{
  ℕ, suc, ◌+◌, ◌-◌, ◌*◌, ◌/◌, String, Bool, true, false, ◌&&◌, ◌||◌, not, Option, none, some, List,
  [], ◌∷◌, Map, lookup, insert, delete, ltb, leb, if◌then◌else◌, or_else,
}
use re_mazarin.Common.Int.{ℤ, pos_part, is_nonpos}
use re_mazarin.Common.Text.{itoa}
use re_mazarin.Common.Time.{is_zero_time, add_time, sub_time, seconds}
use re_mazarin.Storage.{Storage, ThrottlePolicy, BannedIp, Reason, auto, manual}
use re_mazarin.Storage.Throttle.{
  tier_anonymous, tier_signed_in, get_throttle_policies, get_active_bans, insert_ban, delete_ban,
}

abbrev pub token : ℕ
token = 1000000000000000

pub record IpBucket : Type 0 where
  pub tier : String
  pub tokens : ℕ
  pub last_refill : ℕ
  pub fail_count : ℕ
  pub window_start : ℕ
  pub last_seen : ℕ

-- The package's variables. A ban's expiry 0 means that the ban holds until it is cleared.
pub record Limiter : Type 0 where
  pub ip_buckets : Map IpBucket
  pub policies : Map ThrottlePolicy
  pub banned : Map ℕ
  pub auth_store : Option Storage

-- 30 * time.Minute
abbrev pub ip_bucket_idle : ℕ
ip_bucket_idle = 1800000000000

-- (*banSet).has, with the deletion of a ban that has run out
unfoldable pub has : Map ℕ → String → ℕ → Map ℕ × Bool
has m ip now = elim (lookup m ip) [
  | none ↦ (m, false)
  | some exp ↦
      if is_zero_time exp
      then (m, true)
      else if ltb exp now
      then (delete m ip, false)
      else (m, true)
]

unfoldable pub is_banned : Limiter → String → ℕ → Limiter × Bool
unfolding has
is_banned l ip now = let (m, hit) = has l.banned ip now in (record l { banned = m }, hit)

unfoldable pub policy_for : Limiter → String → Option ThrottlePolicy
policy_for l tier = lookup l.policies tier

-- fmt.Sprintf("group:%d", id)
unfoldable pub group_key : ℤ → String
group_key id = Prim.Native.String.◌++◌ "group:" (itoa id)

pub is_enabled : Option ThrottlePolicy → Bool
is_enabled none = false
is_enabled (some p) = p.enabled

unfoldable pub resolve_tier : Map ThrottlePolicy → List ℤ → String
unfolding group_key is_enabled
resolve_tier policies [] = tier_signed_in
resolve_tier policies (id ∷ ids) =
    if is_enabled (lookup policies (group_key id)) then group_key id else resolve_tier policies ids

-- `last_refill` is the zero time, so the first `allow` fills the bucket.
unfoldable pub new_bucket : ℕ → IpBucket
new_bucket now = record {
  tier = tier_anonymous;
  tokens = 0;
  last_refill = 0;
  fail_count = 0;
  window_start = 0;
  last_seen = now;
}

unfoldable pub bucket_for : Limiter → String → ℕ → IpBucket
unfolding new_bucket
bucket_for l ip now = or_else (lookup l.ip_buckets ip) (new_bucket now)

abbrev pub put_bucket : Limiter → String → IpBucket → Limiter
put_bucket l ip b = record l { ip_buckets = insert l.ip_buckets ip b }

unfoldable pub set_tier : Limiter → (ip tier : String) (now : ℕ) → Limiter
unfolding bucket_for
set_tier l ip tier now =
    put_bucket l ip (record (bucket_for l ip now) { tier = tier; last_seen = now })

-- float64(pol.Burst), at least 1
unfoldable pub burst_of : ThrottlePolicy → ℕ
burst_of p = if ltb (pos_part p.burst) 1 then 1 else pos_part p.burst

-- The tokens after the refill, cut off at the burst.
unfoldable pub refill : ThrottlePolicy → ℕ → IpBucket → ℕ
unfolding burst_of
refill p now b =
    let burst = burst_of p * token in
    let filled =
      if is_zero_time b.last_refill
      then burst
      else b.tokens + sub_time now b.last_refill * pos_part p.rate_per_sec in
    if ltb burst filled then burst else filled

-- The part of Allow that a rate limit makes: whether a token was taken, or after how many seconds
-- to try again.
unfoldable pub take_token : ThrottlePolicy → ℕ → IpBucket → IpBucket × (Bool × ℕ)
unfolding refill
take_token p now b =
    let tokens = refill p now b in
    let b' = record b { tokens = tokens; last_refill = now; last_seen = now } in
    if leb token tokens
    then (record b' { tokens = tokens - token }, (true, 0))
    else (b', (false, (token - tokens) / (pos_part p.rate_per_sec * 1000000000) + 1))

-- The branch of Allow for an IP with a bucket `b`, whose tier has the policy `pol`, if any.
unfoldable pub allow_bucket : Option ThrottlePolicy → ℕ → IpBucket → IpBucket × (Bool × ℕ)
unfolding take_token
allow_bucket none now b = (record b { last_seen = now }, (true, 0))
allow_bucket (some p) now b =
    if not p.enabled || is_nonpos p.rate_per_sec
    then (record b { last_seen = now }, (true, 0))
    else take_token p now b

unfoldable pub allow : Limiter → String → ℕ → Limiter × (Bool × ℕ)
unfolding bucket_for policy_for allow_bucket
allow l ip now =
    let b = bucket_for l ip now in
    let (b', answer) = allow_bucket (policy_for l b.tier) now b in (put_bucket l ip b', answer)

-- The expiry that Ban sets: the zero time for a ban with no end.
unfoldable pub expiry : ℤ → ℕ → ℕ
expiry duration_sec now = if is_nonpos duration_sec then 0 else add_time now (seconds duration_sec)

-- The same as the pointer that InsertBan takes.
unfoldable pub expires_at : ℤ → ℕ → Option ℕ
unfolding expiry
expires_at duration_sec now =
    if is_nonpos duration_sec then none else some (expiry duration_sec now)

-- `if authStore != nil`; an error of the statement is only logged.
abbrev pub with_store : Limiter → (Storage → Storage) → Limiter
with_store l f = elim l.auth_store [ none ↦ l | some s ↦ record l { auth_store = some (f s) } ]

unfoldable pub ban : Limiter → String → Reason → String → ℤ → ℕ → Limiter
unfolding expiry expires_at
ban l ip reason tier duration_sec now =
    with_store (record l { banned = insert l.banned ip (expiry duration_sec now) })
      (λ s. (insert_ban s ip reason tier (expires_at duration_sec now) now).0)

unfoldable pub unban : Limiter → String → Limiter
unban l ip = with_store (record l { banned = delete l.banned ip }) (λ s. (delete_ban s ip).0)

-- BanIP and UnbanIP
unfoldable pub ban_ip : Limiter → String → ℤ → ℕ → Limiter
unfolding ban
ban_ip l ip duration_sec now = ban l ip manual "manual" duration_sec now

unfoldable pub unban_ip : Limiter → String → Limiter
unfolding unban
unban_ip l ip = unban l ip

-- b.windowStart.IsZero() || (window > 0 && now.Sub(b.windowStart) > window)
unfoldable pub starts_window : ThrottlePolicy → ℕ → IpBucket → Bool
starts_window p now b =
    let window = pos_part (seconds p.ban_window_sec) in
    is_zero_time b.window_start || (ltb 0 window && ltb window (sub_time now b.window_start))

-- One failure counted in the bucket, and whether it tripped the threshold.
unfoldable pub count_failure : ThrottlePolicy → ℕ → IpBucket → IpBucket × Bool
unfolding starts_window
count_failure p now b =
    let fresh = starts_window p now b in
    let start = if fresh then now else b.window_start in
    let count = suc (if fresh then 0 else b.fail_count) in
    if leb (pos_part p.ban_threshold) count
    then (record b { window_start = 0; fail_count = 0; last_seen = now }, true)
    else (record b { window_start = start; fail_count = count; last_seen = now }, false)

-- The branch of RecordFailure for an IP with a bucket `b`, whose tier has the policy `pol`, if any;
-- the policy comes back when the IP is to be banned.
unfoldable pub fail_bucket : Option ThrottlePolicy → ℕ → IpBucket → IpBucket × Option ThrottlePolicy
unfolding count_failure
fail_bucket none now b = (record b { last_seen = now }, none)
fail_bucket (some p) now b =
    if not p.ban_enabled || is_nonpos p.ban_threshold
    then (record b { last_seen = now }, none)
    else let (b', tripped) = count_failure p now b in (b', if tripped then some p else none)

-- The end of RecordFailure, which bans the IP if the failure tripped its tier's policy.
unfoldable pub end_failure :
    Limiter → (ip tier : String) (now : ℕ) → IpBucket × Option ThrottlePolicy → Limiter
unfolding ban
end_failure l ip tier now (b, none) = put_bucket l ip b
end_failure l ip tier now (b, some p) =
    ban (put_bucket l ip b) ip (auto p.ban_threshold p.ban_window_sec tier) tier p.ban_duration_sec
      now

unfoldable pub record_failure : Limiter → String → ℕ → Limiter
unfolding bucket_for policy_for fail_bucket end_failure
record_failure l ip now =
    let b = bucket_for l ip now in
    end_failure l ip b.tier now (fail_bucket (policy_for l b.tier) now b)

policy_map : List ThrottlePolicy → Map ThrottlePolicy → Map ThrottlePolicy
policy_map [] m = m
policy_map (p ∷ ps) m = policy_map ps (insert m p.tier p)

unfoldable pub ban_map : List BannedIp → Map ℕ → Map ℕ
ban_map [] m = m
ban_map (b ∷ bs) m = ban_map bs (insert m b.ip (or_else b.expires_at 0))

unfoldable pub reload_policies : Limiter → Storage → Limiter
unfolding policy_map
reload_policies l s = elim (get_throttle_policies s) [
  | none ↦ l
  | some ps ↦ record l { policies = policy_map ps [] }
]

unfoldable pub reload_bans : Limiter → Storage → ℕ → Limiter
unfolding ban_map
reload_bans l s now = elim (get_active_bans s now) [
  | none ↦ l
  | some bans ↦ record l { banned = ban_map bans [] }
]

unfoldable pub reload_throttle : Limiter → ℕ → Limiter
unfolding reload_policies reload_bans
reload_throttle l now = elim l.auth_store [
  | none ↦ l
  | some s ↦ reload_bans (reload_policies l s) s now
]

-- GetActiveBans: nothing when the query fails.
unfoldable pub get_bans : Limiter → ℕ → List BannedIp
get_bans l now = elim l.auth_store [ none ↦ [] | some s ↦ or_else (get_active_bans s now) [] ]

-- The buckets that are not idle: last seen at or after the cutoff.
unfoldable pub keep_seen : ℕ → Map IpBucket → Map IpBucket
keep_seen cutoff [] = []
keep_seen cutoff ((ip, b) ∷ m) =
    if ltb b.last_seen cutoff then keep_seen cutoff m else (ip, b) ∷ keep_seen cutoff m

unfoldable pub sweep_buckets : Limiter → ℕ → Limiter
unfolding keep_seen
sweep_buckets l now = record l { ip_buckets = keep_seen (now - ip_bucket_idle) l.ip_buckets }
