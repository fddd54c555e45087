-- ===== src/Limiter/Failures.antt =====
-- The automatic ban of proxy/limiter.go: which failures trip it.
use re_mazarin.Common.{
  ℕ, suc, ◌+◌, ◌*◌, ◌≤◌, ◌<◌, String, ◌≡◌, Bool, true, false, none, some, arith, List, [], ◌∷◌,
  lookup, insert, lookup-insert, if◌then◌else◌, ltb, ltb→lt, ltb-false, Bool-cases, inl, inr,
  eq_refl, refl, length, All, sym, ap,
}
use re_mazarin.Common.Int.{pos, pos_part}
use re_mazarin.Common.Time.{sub_time, seconds, seconds_exact, max_seconds}
use re_mazarin.Storage.{ThrottlePolicy}
use re_mazarin.Storage.Throttle.{tier_anonymous}
use re_mazarin.Limiter.{
  Limiter, IpBucket, bucket_for, policy_for, new_bucket, starts_window, count_failure, fail_bucket,
  record_failure, expiry, put_bucket,
}
use re_mazarin.Limiter.Bans.{banned-ban}

-- A policy that bans after `k` failures within `n` seconds.
pub record IsBanning (p : ThrottlePolicy) (k n : ℕ) : Type 0 where
  pub enabled : p.ban_enabled ≡ true
  pub threshold : p.ban_threshold ≡ pos k
  pub positive : 0 < k
  pub window : p.ban_window_sec ≡ pos n
  pub some_window : 0 < n
  pub exact : n < max_seconds

-- The failures of one IP at some times, the latest first.
pub failed : Limiter → String → List ℕ → Limiter
failed l ip [] = l
failed l ip (t ∷ ts) = record_failure (failed l ip ts) ip t

abbrev pub oldest : ℕ → List ℕ → ℕ
oldest t [] = t
oldest t (u ∷ us) = oldest u us

abbrev pub IsUnseen : Limiter → String → Type 0
IsUnseen l ip = lookup l.ip_buckets ip ≡ none

bucket_for_unseen :
    (l : Limiter) (ip : String) (t : ℕ) → IsUnseen l ip → bucket_for l ip t ≡ new_bucket t
unfolding bucket_for
bucket_for_unseen l ip t h = rw h

bucket_for_seen :
    (l : Limiter) (ip : String) (t : ℕ) (b : IpBucket)
    → lookup l.ip_buckets ip ≡ some b
    → bucket_for l ip t ≡ b
unfolding bucket_for
bucket_for_seen l ip t b h = rw h

-- What the limiter `l'` holds behind some failures that tripped nothing, all in one window.
record Counting (l l' : Limiter) (ip : String) (t : ℕ) (ts : List ℕ) : Type 0 where
  bucket : IpBucket
  held : lookup l'.ip_buckets ip ≡ some bucket
  tier : bucket.tier ≡ tier_anonymous
  start : bucket.window_start ≡ oldest t ts
  count : bucket.fail_count ≡ length (t ∷ ts)
  same_policies : l'.policies ≡ l.policies
  same_banned : l'.banned ≡ l.banned

put_bucket-Counting :
    (l l' : Limiter) (ip : String) (t : ℕ) (ts : List ℕ) (b : IpBucket)
    → b.tier ≡ tier_anonymous
    → b.window_start ≡ oldest t ts
    → b.fail_count ≡ length (t ∷ ts)
    → l'.policies ≡ l.policies
    → l'.banned ≡ l.banned
    → Counting l (put_bucket l' ip b) ip t ts
put_bucket-Counting l l' ip t ts b tier start count same_policies same_banned = record {
  bucket = b;
  held = rw (lookup-insert, eq_refl);
  tier = tier;
  start = start;
  count = count;
  same_policies = same_policies;
  same_banned = same_banned;
}

module _ (p : ThrottlePolicy) (k n : ℕ) (banning : IsBanning p k n) where
  window_eq : pos_part (seconds p.ban_window_sec) ≡ n * 1000000000
  window_eq = rw (banning.window, seconds_exact n (omega arith))

  -- Inside an open window nothing is reset.
  stays_open :
      (t : ℕ) (b : IpBucket)
      → 0 < b.window_start
      → t ≤ b.window_start + n * 1000000000
      → starts_window p t b ≡ false
  unfolding starts_window sub_time
  stays_open t b h le = rw window_eq (ground arith)

  -- A window that is still open is not older than its length.
  open_window :
      (t : ℕ) (b : IpBucket) → starts_window p t b ≡ false → t ≤ b.window_start + n * 1000000000
  unfolding starts_window sub_time
  open_window t b e = let w = window_eq in ground (arith, banning.exact, banning.some_window)

  count_opened :
      (t : ℕ) (b : IpBucket)
      → starts_window p t b ≡ true
      → (1 < k)
      → count_failure p t b ≡ (record b { window_start = t; fail_count = 1; last_seen = t }, false)
  unfolding count_failure
  count_opened t b e h = rw (banning.threshold, e) (ground arith)

  count_below :
      (t : ℕ) (b : IpBucket)
      → starts_window p t b ≡ false
      → suc b.fail_count < k
      → count_failure p t b ≡ (record b { fail_count = suc b.fail_count; last_seen = t }, false)
  unfolding count_failure
  count_below t b e h = rw (banning.threshold, e) (ground arith)

  count_trips :
      (t : ℕ) (b : IpBucket)
      → starts_window p t b ≡ false
      → suc b.fail_count ≡ k
      → count_failure p t b ≡ (record b { window_start = 0; fail_count = 0; last_seen = t }, true)
  unfolding count_failure
  count_trips t b e h = rw (banning.threshold, e) (ground arith)

  fail_counted :
      (t : ℕ) (b b' : IpBucket) (tripped : Bool)
      → count_failure p t b ≡ (b', tripped)
      → fail_bucket (some p) t b ≡ (b', (if tripped then some p else none))
  unfolding fail_bucket
  fail_counted t b b' tripped c =
      ground (arith, banning.enabled, banning.threshold, banning.positive)

  module _ (l : Limiter) (ip : String) (t : ℕ)
      (e : lookup l.policies (bucket_for l ip t).tier ≡ some p) where
    -- A failure that is counted and trips nothing.
    record_counted :
        (b : IpBucket)
        → count_failure p t (bucket_for l ip t) ≡ (b, false)
        → record_failure l ip t ≡ put_bucket l ip b
    unfolding record_failure policy_for
    record_counted b c = rw (e, fail_counted t (bucket_for l ip t) b false c)

    -- A failure that trips the threshold.
    record_tripped :
        (b : IpBucket)
        → count_failure p t (bucket_for l ip t) ≡ (b, true)
        → (record_failure l ip t).banned ≡ insert l.banned ip (expiry p.ban_duration_sec t)
    unfolding record_failure policy_for
    record_tripped b c =
        rw (e, fail_counted t (bucket_for l ip t) b true c)
          (banned-ban (put_bucket l ip b) ip _ _ p.ban_duration_sec t)

  first_opens : (t : ℕ) → starts_window p t (new_bucket t) ≡ true
  unfolding starts_window new_bucket
  first_opens t = refl

  -- A failure behind others of the same window, seen from the bucket that those left.
  module _ (l l' : Limiter) (ip : String) (t u : ℕ) (us : List ℕ)
      (e : lookup l.policies tier_anonymous ≡ some p) (c : Counting l l' ip u us)
      (after : 0 < oldest u us) (fits : t ≤ oldest u us + n * 1000000000) where
    still_open : starts_window p t (bucket_for l' ip t) ≡ false
    still_open =
        rw (bucket_for_seen l' ip t c.bucket c.held)
          (stays_open t c.bucket (rw c.start after) (rw c.start fits))

    same_policy : lookup l'.policies (bucket_for l' ip t).tier ≡ some p
    same_policy = rw (bucket_for_seen l' ip t c.bucket c.held, c.tier, c.same_policies) e

    counts_on : suc (length (u ∷ us)) < k → Counting l (record_failure l' ip t) ip t (u ∷ us)
    counts_on lt =
        rw
          (record_counted l' ip t same_policy _ (
            count_below t (bucket_for l' ip t) still_open
              (rw (bucket_for_seen l' ip t c.bucket c.held, c.count) lt)))
          (put_bucket-Counting l l' ip t (u ∷ us) _
            (rw (bucket_for_seen l' ip t c.bucket c.held) c.tier)
            (rw (bucket_for_seen l' ip t c.bucket c.held) c.start)
            (rw (bucket_for_seen l' ip t c.bucket c.held) (ap suc c.count)) c.same_policies
            c.same_banned)

    trips_now :
        suc (length (u ∷ us)) ≡ k
        → (record_failure l' ip t).banned ≡ insert l.banned ip (expiry p.ban_duration_sec t)
    trips_now eq = rw (← c.same_banned) (
        record_tripped l' ip t same_policy _ (
          count_trips t (bucket_for l' ip t) still_open
            (rw (bucket_for_seen l' ip t c.bucket c.held, c.count) eq)))

  failed_below :
      (l : Limiter) (ip : String) (t : ℕ) (ts : List ℕ)
      → IsUnseen l ip
      → lookup l.policies tier_anonymous ≡ some p
      → 0 < oldest t ts
      → All (λ u. u ≤ oldest t ts + n * 1000000000) (t ∷ ts)
      → length (t ∷ ts) < k
      → Counting l (failed l ip (t ∷ ts)) ip t ts
  unfolding failed
  failed_below l ip t [] new e after all lt =
      let b : IpBucket = new_bucket t in
      rw
        (record_counted l ip t (rw (bucket_for_unseen l ip t new) (unfold new_bucket in e))
          (record b { window_start = t; fail_count = 1; last_seen = t })
          (rw (bucket_for_unseen l ip t new) (count_opened t b (first_opens t) lt)))
        (put_bucket-Counting l l ip t [] _ (unfold new_bucket in refl) refl refl refl refl)
  failed_below l ip t (u ∷ us) new e after (a, all) lt =
      counts_on l (failed l ip (u ∷ us)) ip t u us e
        (failed_below l ip u us new e after all (omega arith)) after a lt

  count_first_trips :
      (t : ℕ) (b : IpBucket)
      → starts_window p t b ≡ true
      → k ≡ 1
      → count_failure p t b ≡ (record b { window_start = 0; fail_count = 0; last_seen = t }, true)
  unfolding count_failure
  count_first_trips t b e h = rw (banning.threshold, e, h) (ground arith)

  trips_at :
      (l : Limiter) (ip : String) (t : ℕ) (ts : List ℕ)
      → IsUnseen l ip
      → lookup l.policies tier_anonymous ≡ some p
      → 0 < oldest t ts
      → All (λ u. u ≤ oldest t ts + n * 1000000000) (t ∷ ts)
      → length (t ∷ ts) ≡ k
      → (failed l ip (t ∷ ts)).banned ≡ insert l.banned ip (expiry p.ban_duration_sec t)
  unfolding failed
  trips_at l ip t [] new e after all eq =
      record_tripped l ip t (rw (bucket_for_unseen l ip t new) (unfold new_bucket in e))
        (record (new_bucket t) { window_start = 0; fail_count = 0; last_seen = t })
        (rw (bucket_for_unseen l ip t new)
          (count_first_trips t (new_bucket t) (first_opens t) (sym eq)))
  trips_at l ip t (u ∷ us) new e after (a, all) eq =
      trips_now l (failed l ip (u ∷ us)) ip t u us e
        (failed_below l ip u us new e after all (omega arith)) after a eq

  -- An IP that the limiter has not seen, under an anonymous policy that bans after `k` failures in
  -- `n` seconds: up to `k` failures that all fall within `n` seconds of the first leave the ban
  -- set as it is while there are fewer than `k`, and with the `k`-th the IP is banned, for the
  -- policy's duration from that failure on.
  pub auto_ban :
      (l : Limiter) (ip : String) (t : ℕ) (ts : List ℕ)
      → IsUnseen l ip
      → lookup l.policies tier_anonymous ≡ some p
      → 0 < oldest t ts
      → All (λ u. u ≤ oldest t ts + n * 1000000000) (t ∷ ts)
      → length (t ∷ ts) ≤ k
      → (failed l ip (t ∷ ts)).banned ≡ (
          if ltb (length (t ∷ ts)) k
          then l.banned
          else insert l.banned ip (expiry p.ban_duration_sec t))
  auto_ban l ip t ts new e after all le = elim (Bool-cases (ltb (length (t ∷ ts)) k)) [
    | inl lt ↦ rw lt ((failed_below l ip t ts new e after all (ltb→lt _ _ lt)).same_banned)
    | inr ge ↦
        let le' : k ≤ length (t ∷ ts) = ltb-false (length (t ∷ ts)) k ge in
        rw ge (trips_at l ip t ts new e after all (omega (arith, le, le')))
  ]
