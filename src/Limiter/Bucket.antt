-- ===== src/Limiter/Bucket.antt =====
-- The rate limit of proxy/limiter.go as a token bucket.
use re_mazarin.Common.{
  ℕ, suc, ◌+◌, ◌*◌, ◌-◌, ◌/◌, ◌≤◌, ◌<◌, String, ◌≡◌, Bool, true, false, some, arith, List, [], ◌∷◌,
  lookup, insert, lookup-insert, leb, if◌then◌else◌, min, eq_refl, refl, sym, ap, ◌∙◌, Bool-cases,
  inl, inr, tests,
}
use native.Mathlib.Nat.{mod-lt, div-add-mod, mul-le-mul_left, mul-le-mul_right}
use re_mazarin.Common.Int.{max_i64, pos_part, is_nonpos}
use re_mazarin.Common.Time.{sub_time}
use re_mazarin.Storage.{ThrottlePolicy}
use re_mazarin.Limiter.{
  Limiter, IpBucket, token, burst_of, refill, take_token, allow_bucket, allow, bucket_for,
  policy_for,
}

burst_pos : (p : ThrottlePolicy) → 1 ≤ burst_of p
unfolding burst_of
burst_pos p = ground arith

refill-le-burst :
    (p : ThrottlePolicy) (now : ℕ) (b : IpBucket) → refill p now b ≤ burst_of p * token
unfolding refill
refill-le-burst p now b = ground arith

sub_time-le : (now t : ℕ) → sub_time now t ≤ now - t
unfolding sub_time
sub_time-le now t = omega arith

-- What a refill adds is at most the rate times the time since the last one.
refill-le :
    (p : ThrottlePolicy) (now : ℕ) (b : IpBucket)
    → 0 < b.last_refill
    → refill p now b ≤ b.tokens + (now - b.last_refill) * pos_part p.rate_per_sec
unfolding refill
refill-le p now b h =
    let e : sub_time now b.last_refill * pos_part p.rate_per_sec
        ≤ (now - b.last_refill) * pos_part p.rate_per_sec =
      grind (arith, sub_time-le now b.last_refill) in
    ground arith

-- A tier that limits: its policy is enabled and has a positive rate.
abbrev pub IsLimiting : ThrottlePolicy → Type 0
IsLimiting p = (p.enabled ≡ true) × (is_nonpos p.rate_per_sec ≡ false)

-- Times in order, the first of them at `t` or later.
abbrev pub Ascending : ℕ → List ℕ → Type 0
Ascending t [] = Unit
Ascending t (u ∷ us) = (t ≤ u) × Ascending u us

abbrev pub last_of : ℕ → List ℕ → ℕ
last_of t [] = t
last_of t (u ∷ us) = last_of u us

-- How many of the requests of one IP, made at some times, are allowed.
pub allowed : Limiter → String → List ℕ → ℕ
allowed l ip [] = 0
allowed l ip (t ∷ ts) =
    let n = allowed (allow l ip t).0 ip ts in if (allow l ip t).1.0 then suc n else n

-- The same on a bucket alone.
taken : ThrottlePolicy → IpBucket → List ℕ → ℕ
taken p b [] = 0
taken p b (t ∷ ts) =
    let n = taken p (take_token p t b).0 ts in if (take_token p t b).1.0 then suc n else n

take_token_budget :
    (p : ThrottlePolicy) (now : ℕ) (b : IpBucket)
    → (if (take_token p now b).1.0 then token else 0) + (take_token p now b).0.tokens
      ≡ refill p now b
unfolding take_token
take_token_budget p now b = ground arith

take_token_bucket :
    (p : ThrottlePolicy) (now : ℕ) (b : IpBucket)
    → ((take_token p now b).0.last_refill ≡ now) × ((take_token p now b).0.tier ≡ b.tier)
unfolding take_token
take_token_bucket p now b = ground arith

-- A limited request is one `take_token` on the bucket of its IP.
allow-take_token :
    (l : Limiter) (ip : String) (now : ℕ) (p : ThrottlePolicy)
    → IsLimiting p
    → lookup l.policies (bucket_for l ip now).tier ≡ some p
    → let r = take_token p now (bucket_for l ip now) in
      allow l ip now ≡ (record l { ip_buckets = insert l.ip_buckets ip r.0 }, r.1)
unfolding allow allow_bucket policy_for
allow-take_token l ip now p h e = rw e (ground arith)

bucket_for-insert :
    (l : Limiter) (ip : String) (b : IpBucket) (now : ℕ)
    → bucket_for (record l { ip_buckets = insert l.ip_buckets ip b }) ip now ≡ b
unfolding bucket_for
bucket_for-insert l ip b now = rw (lookup-insert, eq_refl)

le-last_of : (t : ℕ) (ts : List ℕ) → Ascending t ts → t ≤ last_of t ts
le-last_of t [] a = omega arith
le-last_of t (u ∷ us) (le, a) = omega (arith, le-last_of u us a)

split_product : (s t u r : ℕ) → s ≤ t → t ≤ u → (u - s) * r ≡ (u - t) * r + (t - s) * r
split_product s t u r h k = let d : u - s ≡ (u - t) + (t - s) = omega arith in rw d (omega arith)

step_arith :
    (ok : Bool) (n after full before gained later : ℕ)
    → n * token ≤ after + later
    → (if ok then token else 0) + after ≡ full
    → full ≤ before + gained
    → (if ok then suc n else n) * token ≤ before + (later + gained)
step_arith true n after full before gained later h e k = omega arith
step_arith false n after full before gained later h e k = omega arith

taken_bound :
    (p : ThrottlePolicy) (b : IpBucket) (ts : List ℕ)
    → 0 < b.last_refill
    → Ascending b.last_refill ts
    → taken p b ts * token
      ≤ b.tokens + (last_of b.last_refill ts - b.last_refill) * pos_part p.rate_per_sec
unfolding taken
taken_bound p b [] h a = omega arith
taken_bound p b (t ∷ ts) h (le, a) =
    let b' : IpBucket = (take_token p t b).0 in
    let e : b'.last_refill ≡ t = (take_token_bucket p t b).0 in
    let ih = rw e at (taken_bound p b' ts (rw e (omega arith)) (rw e a)) in
    rw
      (split_product b.last_refill t (last_of t ts) (pos_part p.rate_per_sec) le
        (le-last_of t ts a))
      (step_arith (take_token p t b).1.0 (taken p b' ts) b'.tokens (refill p t b) b.tokens _ _ ih
        (take_token_budget p t b) (refill-le p t b h))

allow_seen :
    (l : Limiter) (ip : String) (b : IpBucket) (now : ℕ) (p : ThrottlePolicy)
    → IsLimiting p
    → lookup l.ip_buckets ip ≡ some b
    → lookup l.policies b.tier ≡ some p
    → let r = take_token p now b in
      allow l ip now ≡ (record l { ip_buckets = insert l.ip_buckets ip r.0 }, r.1)
unfolding allow allow_bucket policy_for bucket_for
allow_seen l ip b now p h e k = rw (e, k) (ground arith)

allowed-taken :
    (l : Limiter) (ip : String) (b : IpBucket) (p : ThrottlePolicy) (ts : List ℕ)
    → IsLimiting p
    → lookup l.ip_buckets ip ≡ some b
    → lookup l.policies b.tier ≡ some p
    → allowed l ip ts ≡ taken p b ts
unfolding allowed taken
allowed-taken l ip b p [] h e k = refl
allowed-taken l ip b p (t ∷ ts) h e k =
    let b' : IpBucket = (take_token p t b).0 in
    let ih =
      allowed-taken (record l { ip_buckets = insert l.ip_buckets ip b' }) ip b' p ts h
        (rw (lookup-insert, eq_refl)) (rw ((take_token_bucket p t b).1) k) in
    rw (allow_seen l ip b t p h e k) (ground (arith, ih))

-- Under a tier with an enabled policy and a positive rate, of the requests of an IP at some times,
-- in order, at most as many are allowed as the burst holds tokens and the rate refills between the
-- first and the last, whatever state the IP's bucket is in.
pub allowed_bound :
    (l : Limiter) (ip : String) (p : ThrottlePolicy) (t : ℕ) (ts : List ℕ)
    → 0 < t
    → Ascending t ts
    → IsLimiting p
    → lookup l.policies (bucket_for l ip t).tier ≡ some p
    → allowed l ip (t ∷ ts) * token
      ≤ burst_of p * token + (last_of t ts - t) * pos_part p.rate_per_sec
unfolding allowed
allowed_bound l ip p t ts h a lim e =
    let b : IpBucket = bucket_for l ip t in
    let b' : IpBucket = (take_token p t b).0 in
    let (seen, same) = take_token_bucket p t b in
    let k : allowed (record l { ip_buckets = insert l.ip_buckets ip b' }) ip ts ≡ taken p b' ts =
      allowed-taken (record l { ip_buckets = insert l.ip_buckets ip b' }) ip b' p ts lim
        (rw (lookup-insert, eq_refl)) (rw same e) in
    let bound = rw seen at (taken_bound p b' ts (rw seen h) (rw seen a)) in
    rw (allow-take_token l ip t p lim e, k)
      (omega (
        arith,
        step_arith (take_token p t b).1.0 (taken p b' ts) b'.tokens (refill p t b)
            (burst_of p * token) 0 _ bound (take_token_budget p t b)
            (omega (arith, refill-le-burst p t b)),
      ))

take_denied :
    (p : ThrottlePolicy) (now retry : ℕ) (b : IpBucket)
    → (take_token p now b).1 ≡ (false, retry)
    → let b' = (take_token p now b).0 in
      (b'.tokens < token)
      × (retry ≡ (token - b'.tokens) / (pos_part p.rate_per_sec * 1000000000) + 1)
unfolding take_token
take_denied p now retry b h = ground arith

take_allowed :
    (p : ThrottlePolicy) (now : ℕ) (b : IpBucket)
    → token ≤ refill p now b
    → (take_token p now b).1.0 ≡ true
unfolding take_token
take_allowed p now b h = ground arith

below_next_multiple : (n u : ℕ) → 0 < u → n ≤ (n / u + 1) * u
below_next_multiple n u h = omega (arith, div-add-mod n u, mod-lt n h)

-- The rest of a token is refilled in the announced number of seconds.
refilled :
    (tokens rate d : ℕ)
    → 0 < rate
    → ((token - tokens) / (rate * 1000000000) + 1) * 1000000000 ≤ d
    → token ≤ tokens + d * rate
refilled tokens rate d h le = omega (
  arith,
  below_next_multiple (token - tokens) (rate * 1000000000) (omega arith),
  mul-le-mul_right rate le,
)

-- A difference of times that saturates refills a token too.
refilled_min :
    (tokens rate d : ℕ)
    → 0 < rate
    → ((token - tokens) / (rate * 1000000000) + 1) * 1000000000 ≤ d
    → token ≤ tokens + min d max_i64 * rate
refilled_min tokens rate d h le = elim (Bool-cases (leb d max_i64)) [
  | inl small ↦ let e : min d max_i64 ≡ d = omega (tests) in rw e (refilled tokens rate d h le)
  | inr large ↦
      let e : min d max_i64 ≡ max_i64 = ground arith in
      rw e (omega (arith, mul-le-mul_left max_i64 h))
]

refill_enough :
    (p : ThrottlePolicy) (later d : ℕ) (b : IpBucket)
    → 0 < b.last_refill
    → later - b.last_refill ≡ d
    → token ≤ b.tokens + min d max_i64 * pos_part p.rate_per_sec
    → token ≤ refill p later b
unfolding refill sub_time
refill_enough p later d b h e le = rw e (ground (arith, burst_pos p))

-- A request that comes once the announced number of seconds has passed is allowed, if the IP made
-- none in between and its tier still has the policy.
pub retry_suffices :
    (l : Limiter) (ip : String) (p : ThrottlePolicy) (now retry later : ℕ)
    → 0 < now
    → IsLimiting p
    → lookup l.policies (bucket_for l ip now).tier ≡ some p
    → (allow l ip now).1 ≡ (false, retry)
    → now + retry * 1000000000 ≤ later
    → (allow (allow l ip now).0 ip later).1.0 ≡ true
retry_suffices l ip p now retry later h lim e denied le =
    let b : IpBucket = bucket_for l ip now in
    let b' : IpBucket = (take_token p now b).0 in
    let step = allow-take_token l ip now p lim e in
    let (seen, same) = take_token_bucket p now b in
    let (short, wait) =
      take_denied p now retry b (sym (ap (λ (r : Limiter × (Bool × ℕ)). r.1) step) ∙ denied) in
    rw
      (
        step,
        allow_seen (record l { ip_buckets = insert l.ip_buckets ip b' }) ip b' later p lim
            (rw (lookup-insert, eq_refl)) (rw same e),
      )
      (take_allowed p later b' (
        refill_enough p later (later - now) b' (rw seen h) (rw seen) (
          refilled_min b'.tokens (pos_part p.rate_per_sec) (later - now) (ground arith)
            (rw (← wait) (omega arith)))))
