-- ===== src/Storage/Throttle.antt =====
-- storage/throttle.go: the throttle policies and the persisted bans.
use re_mazarin.Common.Int.{ℤ}
use re_mazarin.Common.{
  ℕ, String, Bool, true, false, not, ◌||◌, Option, none, some, List, [], ◌∷◌, str_eq, if◌then◌else◌,
  select,
}
use re_mazarin.Storage.{is_later, Storage, ThrottlePolicy, BannedIp, Reason}

abbrev pub tier_anonymous : String
tier_anonymous = "anonymous"

abbrev pub tier_signed_in : String
tier_signed_in = "signed-in"

-- The rows, or an error. ORDER BY tier is done by the caller that shows them; the other one makes a map.
unfoldable pub get_throttle_policies : Storage → Option (List ThrottlePolicy)
get_throttle_policies s = if s.reachable then some s.throttle_policies else none

upsert_policy : List ThrottlePolicy → ThrottlePolicy → List ThrottlePolicy
upsert_policy [] p = p ∷ []
upsert_policy (q ∷ qs) p = if str_eq q.tier p.tier then p ∷ qs else q ∷ upsert_policy qs p

unfoldable pub upsert_throttle_policy : Storage → ThrottlePolicy → Storage × Bool
unfolding upsert_policy
upsert_throttle_policy s p =
    if s.reachable
    then (record s { throttle_policies = upsert_policy s.throttle_policies p }, true)
    else (s, false)

-- The two built-in tiers cannot be deleted.
unfoldable pub delete_throttle_policy : Storage → String → Storage × Bool
delete_throttle_policy s tier =
    if str_eq tier tier_anonymous || str_eq tier tier_signed_in
    then (s, false)
    else if s.reachable
    then (
      record s { throttle_policies = select (λ p. not (str_eq p.tier tier)) s.throttle_policies },
      true,
    )
    else (s, false)

-- expires_at IS NULL OR expires_at > datetime('now')
unfoldable pub is_active : (zone : ℤ) → ℕ → BannedIp → Bool
unfolding is_later
is_active zone now b = elim b.expires_at [ none ↦ true | some t ↦ is_later zone now t ]

unfoldable pub get_active_bans : Storage → ℕ → Option (List BannedIp)
unfolding is_active
get_active_bans s now =
    if s.reachable then some (select (is_active s.zone now) s.banned_ips) else none

unfoldable pub upsert_ban : List BannedIp → BannedIp → List BannedIp
upsert_ban [] b = b ∷ []
upsert_ban (c ∷ cs) b = if str_eq c.ip b.ip then b ∷ cs else c ∷ upsert_ban cs b

unfoldable pub insert_ban : Storage → String → Reason → String → Option ℕ → ℕ → Storage × Bool
unfolding upsert_ban
insert_ban s ip reason tier expires_at now =
    if s.reachable
    then (record s { banned_ips = upsert_ban s.banned_ips row }, true)
    else (s, false)
  where
    row : BannedIp
    row = record {
      ip = ip;
      reason = reason;
      tier = tier;
      created_at = now;
      expires_at = expires_at;
    }

unfoldable pub delete_ban : Storage → String → Storage × Bool
delete_ban s ip =
    if s.reachable
    then (record s { banned_ips = select (λ b. not (str_eq b.ip ip)) s.banned_ips }, true)
    else (s, false)

-- expires_at IS NOT NULL AND expires_at <= datetime('now')
is_expired : (zone : ℤ) → ℕ → BannedIp → Bool
unfolding is_later
is_expired zone now b = elim b.expires_at [ none ↦ false | some t ↦ not (is_later zone now t) ]

unfoldable pub cleanup_expired_bans : Storage → ℕ → Storage
unfolding is_expired
cleanup_expired_bans s now =
    if s.reachable
    then record s { banned_ips = select (λ b. not (is_expired s.zone now b)) s.banned_ips }
    else s
