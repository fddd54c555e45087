-- ===== src/Limiter/Tiers.antt =====
-- The tiers of proxy/limiter.go: which policy an IP falls under.
use re_mazarin.Common.{
  ℕ, ◌≤◌, String, ◌≡◌, true, false, some, arith, List, [], ◌∷◌, lookup, lookup-insert, str_eq,
  if◌then◌else◌, ◌⊎◌, Map, or_else,
}
use re_mazarin.Common.Int.{ℤ}
use re_mazarin.Storage.{ThrottlePolicy}
use re_mazarin.Limiter.{
  Limiter, IpBucket, bucket_for, new_bucket, group_key, is_enabled, set_tier, keep_seen,
}

-- The first of some groups whose override is enabled.
abbrev pub Override : Map ThrottlePolicy → List ℤ → String → Type 0
Override m [] tier = ⊥
Override m (g ∷ gs) tier =
    ((is_enabled (lookup m (group_key g)) ≡ true) × (tier ≡ group_key g))
    ⊎ ((is_enabled (lookup m (group_key g)) ≡ false) × Override m gs tier)

abbrev pub NoOverride : Map ThrottlePolicy → List ℤ → Type 0
NoOverride m [] = Unit
NoOverride m (g ∷ gs) = (is_enabled (lookup m (group_key g)) ≡ false) × NoOverride m gs

pub tier_of : Limiter → String → ℕ → String
tier_of l ip now = (bucket_for l ip now).tier

-- Whoever is promoted to a tier is in that tier from then on, until the next promotion or sweep,
-- and no other IP changes its tier.
pub tier_of-set_tier :
    (l : Limiter) (ip j tier : String) (now t : ℕ)
    → tier_of (set_tier l ip tier now) j t ≡ (if str_eq ip j then tier else tier_of l j t)
unfolding tier_of set_tier bucket_for new_bucket
tier_of-set_tier l ip j tier now t = ground (
  arith,
  lookup-insert l.ip_buckets ip j
      (record (or_else (lookup l.ip_buckets ip) (new_bucket now)) { tier = tier; last_seen = now }),
)

lookup-keep_seen :
    (cutoff : ℕ) (m : Map IpBucket) (ip : String) (b : IpBucket)
    → lookup (keep_seen cutoff m) ip ≡ some b
    → cutoff ≤ b.last_seen
unfolding keep_seen lookup
lookup-keep_seen cutoff [] ip b h = cc
lookup-keep_seen cutoff ((j, c) ∷ m) ip b h = ground (arith, lookup-keep_seen cutoff m ip b)
