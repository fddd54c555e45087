-- ===== src/Limiter/Tests.antt =====
-- Runs of the limiter's properties.
use re_mazarin.Common.{◌&&◌, ◌≤◌, ◌+◌, ◌*◌, ◌≡◌, true, false, arith, [], ◌∷◌, refl, lookup, insert}
use re_mazarin.Common.Int.{pos}
use re_mazarin.Storage.{manual}
use re_mazarin.Common.Time.{sub_time}
use re_mazarin.Limiter.{
  reload_throttle, Limiter, bucket_for, refill, is_banned, ban, allow, token, burst_of, expiry,
}
use re_mazarin.Limiter.Bans.{ban_until, ban_overflow}
use re_mazarin.Limiter.Bucket.{allowed, allowed_bound, retry_suffices}
use re_mazarin.Limiter.Failures.{auto_ban, failed, IsBanning}
use re_mazarin.Limiter.Persistence.{is_shown, is_banned-reload_throttle}
use re_mazarin.Fixtures.{storage, limiter, anonymous_policy}

ban_until_example :
    (is_banned (ban limiter "1.2.3.4" manual "manual" (pos 60) 5) "1.2.3.4" 7).1 ≡ true
ban_until_example =
    ban_until limiter "1.2.3.4" "1.2.3.4" manual "manual" 60 5 7 (omega arith) (omega arith)

ban_overflow_example :
    (is_banned
      (ban limiter "1.2.3.4" manual "manual" (pos 9300000000) 9300000000000000000)
      "1.2.3.4"
      9300000000000000001).1
    ≡ false
ban_overflow_example =
    ban_overflow limiter "1.2.3.4" manual "manual" 9300000000 9300000000000000000
      9300000000000000001 (omega arith) (omega arith) (omega arith) (omega arith)

allowed_bound_example :
    allowed limiter "1.2.3.4" (10 ∷ 20 ∷ 30 ∷ []) * token
    ≤ burst_of anonymous_policy * token + 20 * 1000000
unfolding lookup bucket_for
allowed_bound_example =
    allowed_bound limiter "1.2.3.4" anonymous_policy 10 (20 ∷ 30 ∷ []) (omega arith)
      (omega arith, (omega arith, tt)) (refl, refl) refl

two_in_a_minute : IsBanning anonymous_policy 2 60
two_in_a_minute = record {
  enabled = refl;
  threshold = refl;
  positive = omega arith;
  window = refl;
  some_window = omega arith;
  exact = omega arith;
}

auto_ban_example :
    (failed limiter "1.2.3.4" (9 ∷ 7 ∷ [])).banned ≡ insert [] "1.2.3.4" (expiry (pos 600) 9)
unfolding lookup
auto_ban_example =
    auto_ban anonymous_policy 2 60 two_in_a_minute limiter "1.2.3.4" 9 (7 ∷ []) refl refl
      (omega arith) (omega arith, (omega arith, tt)) (omega arith)

-- An IP that has used up its tokens.
abbrev spent : Limiter
spent = record limiter {
  ip_buckets =
      (
        "1.2.3.4",
        record {
          tier = "anonymous";
          tokens = 0;
          last_refill = 100;
          fail_count = 0;
          window_start = 0;
          last_seen = 100;
        },
      )
      ∷ [];
}

spent-denied : (allow spent "1.2.3.4" 100).1 ≡ (false, 2)
unfolding allow lookup refill burst_of sub_time
spent-denied = refl

retry_suffices_example : (allow (allow spent "1.2.3.4" 100).0 "1.2.3.4" 2000000100).1.0 ≡ true
unfolding lookup bucket_for
retry_suffices_example =
    retry_suffices spent "1.2.3.4" anonymous_policy 100 2 2000000100 (omega arith) (refl, refl) refl
      spent-denied (omega arith)

abbrev banning : Limiter
banning = ban limiter "9.9.9.9" manual "manual" (pos 60) 5

is_banned-reload_throttle_example :
    (is_banned (reload_throttle banning 9) "9.9.9.9" 7).1
    ≡ (is_shown storage.zone (pos 60) 5 9 && (is_banned banning "9.9.9.9" 7).1)
is_banned-reload_throttle_example =
    is_banned-reload_throttle limiter banning storage "9.9.9.9" manual "manual" (pos 60) 5 9 7 refl
      refl refl refl
