-- ===== src/Limiter/Bans.antt =====
-- The ban set of proxy/limiter.go: what a ban and its lifting change, over time.
use re_mazarin.Common.{
  ℕ, ◌+◌, ◌*◌, ◌≤◌, ◌<◌, String, ◌≡◌, Bool, true, false, ◌||◌, none, some, arith, eq_iff, eq_refl,
  lookup, insert, delete, lookup-insert, lookup-delete, leb, str_eq, if◌then◌else◌, Map, ◌==◌,
  Option,
}
use re_mazarin.Common.Int.{ℤ, pos, is_nonpos}
use re_mazarin.Common.Time.{add_time, max_seconds, seconds_exact, seconds_wrap}
use re_mazarin.Storage.{Reason}
use re_mazarin.Limiter.{Limiter, has, is_banned, ban, unban, expiry}

-- Whether a ban that runs until `exp` is in force.
abbrev pub in_force : ℕ → ℕ → Bool
in_force exp t = (exp == 0) || leb t exp

abbrev pub holds : Option ℕ → ℕ → Bool
holds none t = false
holds (some exp) t = in_force exp t

pub has-holds : (m : Map ℕ) (ip : String) (t : ℕ) → (has m ip t).1 ≡ holds (lookup m ip) t
unfolding has
has-holds m ip t = ground arith

pub is_banned-holds :
    (l : Limiter) (ip : String) (t : ℕ) → (is_banned l ip t).1 ≡ holds (lookup l.banned ip) t
unfolding is_banned
is_banned-holds l ip t = has-holds l.banned ip t

pub banned-ban :
    (l : Limiter) (ip : String) (r : Reason) (tier : String) (d : ℤ) (now : ℕ)
    → (ban l ip r tier d now).banned ≡ insert l.banned ip (expiry d now)
unfolding ban
banned-ban l ip r tier d now = ground arith

banned-unban : (l : Limiter) (ip : String) → (unban l ip).banned ≡ delete l.banned ip
unfolding unban
banned-unban l ip = ground arith

pub is_banned-ban :
    (l : Limiter) (ip j : String) (r : Reason) (tier : String) (d : ℤ) (now t : ℕ)
    → (is_banned (ban l ip r tier d now) j t).1
      ≡ (if str_eq ip j then in_force (expiry d now) t else (is_banned l j t).1)
is_banned-ban l ip j r tier d now t =
    rw
      (
        is_banned-holds (ban l ip r tier d now) j t,
        banned-ban,
        lookup-insert,
        is_banned-holds l j t,
      )
      (ground arith)

-- A ban for `n` seconds, at least one and at most as many as a duration can hold, holds for its IP up to the
-- end of the last second, and no longer; the answer for every other IP is the one before the ban.
pub ban_until :
    (l : Limiter) (ip j : String) (r : Reason) (tier : String) (n now t : ℕ)
    → 0 < n
    → n ≤ max_seconds
    → (is_banned (ban l ip r tier (pos n) now) j t).1
      ≡ (if str_eq ip j then leb t (now + n * 1000000000) else (is_banned l j t).1)
unfolding expiry add_time
ban_until l ip j r tier n now t h k = rw (is_banned-ban) (ground (arith, seconds_exact n k))

-- A ban with a duration of 0 or less holds at every time; the answer for every other IP is the one
-- before the ban.
pub ban_forever :
    (l : Limiter) (ip j : String) (r : Reason) (tier : String) (d : ℤ) (now t : ℕ)
    → is_nonpos d ≡ true
    → (is_banned (ban l ip r tier d now) j t).1
      ≡ (if str_eq ip j then true else (is_banned l j t).1)
unfolding expiry
ban_forever l ip j r tier d now t h = rw (is_banned-ban) (ground arith)

-- Lifting a ban lets the IP in at every time, and changes the answer for no other IP.
pub is_banned-unban :
    (l : Limiter) (ip j : String) (t : ℕ)
    → (is_banned (unban l ip) j t).1 ≡ (if str_eq ip j then false else (is_banned l j t).1)
is_banned-unban l ip j t =
    rw (is_banned-holds (unban l ip) j t, banned-unban, lookup-delete, is_banned-holds l j t)
      (ground arith)

-- A ban for more seconds than a duration can hold, and at most 18446744073, ends before it begins: the
-- product wraps around to a negative duration, and the IP is let in from `now` on. The clock is past the
-- longest duration.
pub ban_overflow :
    (l : Limiter) (ip : String) (r : Reason) (tier : String) (n now t : ℕ)
    → max_seconds < n
    → n ≤ 18446744073
    → 9223372036854775808 < now
    → now ≤ t
    → (is_banned (ban l ip r tier (pos n) now) ip t).1 ≡ false
unfolding expiry add_time
ban_overflow l ip r tier n now t h k c le =
    rw (is_banned-ban, eq_refl) (ground (arith, seconds_wrap n h k))

holds-has :
    (m : Map ℕ) (ip j : String) (now t : ℕ)
    → now ≤ t
    → holds (lookup (has m ip now).0 j) t ≡ holds (lookup m j) t
unfolding has
holds-has m ip j now t le = ground (arith, lookup-delete m ip j, eq_iff ip j)

-- Asking whether an IP is banned deletes a ban that has run out, and no later question about any IP
-- can tell.
pub is_banned_twice :
    (l : Limiter) (ip j : String) (now t : ℕ)
    → now ≤ t
    → (is_banned (is_banned l ip now).0 j t).1 ≡ (is_banned l j t).1
is_banned_twice l ip j now t le =
    rw (is_banned-holds (is_banned l ip now).0 j t, is_banned-holds l j t)
      (unfold is_banned in holds-has l.banned ip j now t le)
