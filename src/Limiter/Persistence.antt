-- ===== src/Limiter/Persistence.antt =====
-- Ban and reloadThrottle of proxy/limiter.go with the table of storage/throttle.go: what a ban leaves for
-- the next reload, and for the next process.
use re_mazarin.Common.{
  ℕ, String, ◌≡◌, Bool, true, false, not, ◌||◌, some, List, [], ◌∷◌, Map, lookup, insert,
  if◌then◌else◌, or_else, any, select, str_eq, eq_refl, arith, refl, ap, ◌∙◌, sym, lookup-insert,
  Bool-cases, inl, inr, ◌&&◌, none, then_branch, else_branch,
}
use re_mazarin.Common.Int.{ℤ, is_nonpos}
use re_mazarin.Storage.{is_later, Storage, BannedIp, Reason}
use re_mazarin.Storage.Throttle.{is_active, upsert_ban, insert_ban, get_active_bans}
use re_mazarin.Limiter.{
  Limiter, ban, expiry, expires_at, ban_map, reload_policies, reload_bans, reload_throttle,
  is_banned,
}
use re_mazarin.Limiter.Bans.{is_banned-holds, banned-ban, holds}

-- The key of the table: at most one row has the IP.
abbrev pub one_row : String → List BannedIp → Bool
one_row ip [] = true
one_row ip (c ∷ cs) = if str_eq c.ip ip then not (any (λ b. str_eq b.ip ip) cs) else one_row ip cs

select-absent :
    (p : BannedIp → Bool) (ip : String) (bs : List BannedIp)
    → any (λ b. str_eq b.ip ip) bs ≡ false
    → any (λ b. str_eq b.ip ip) (select p bs) ≡ false
select-absent p ip [] h = refl
select-absent p ip (b ∷ bs) h = ground (arith, select-absent p ip bs)

ban_map-absent :
    (bs : List BannedIp) (m : Map ℕ) (ip : String)
    → any (λ b. str_eq b.ip ip) bs ≡ false
    → lookup (ban_map bs m) ip ≡ lookup m ip
unfolding ban_map
ban_map-absent [] m ip h = refl
ban_map-absent (b ∷ bs) m ip h = ground (
  arith,
  ban_map-absent bs (insert m b.ip (or_else b.expires_at 0)) ip,
  lookup-insert m b.ip ip (or_else b.expires_at 0),
)

-- A row that is written and active is what the reload finds for its IP.
ban_map-upsert :
    (zone : ℤ) (now : ℕ) (rows : List BannedIp) (m : Map ℕ) (b : BannedIp)
    → is_active zone now b ≡ true
    → one_row b.ip rows ≡ true
    → lookup (ban_map (select (is_active zone now) (upsert_ban rows b)) m) b.ip
      ≡ some (or_else b.expires_at 0)
unfolding ban_map upsert_ban
ban_map-upsert zone now [] m b act one =
    rw act (lookup-insert m b.ip b.ip (or_else b.expires_at 0) ∙ ground (arith, eq_refl b.ip))
ban_map-upsert zone now (c ∷ cs) m b act one = elim (Bool-cases (str_eq c.ip b.ip)) [
  | inl same ↦
      let gone : any (λ d. str_eq d.ip b.ip) cs ≡ false = ground (arith, one, same) in
      rw (same, act)
        (ban_map-absent (select (is_active zone now) cs) (insert m b.ip (or_else b.expires_at 0))
            b.ip (select-absent (is_active zone now) b.ip cs gone)
          ∙ lookup-insert m b.ip b.ip (or_else b.expires_at 0)
          ∙ ground (arith, eq_refl b.ip))
  | inr other ↦
      let one' : one_row b.ip cs ≡ true = ground (arith, one, other) in
      rw other (
        ground (
          arith,
          ban_map-upsert zone now cs m b act one',
          ban_map-upsert zone now cs (insert m c.ip (or_else c.expires_at 0)) b act one',
        ))
]

-- A row that is written and not active is lost, and there is no other one for its IP.
select-upsert :
    (zone : ℤ) (now : ℕ) (rows : List BannedIp) (b : BannedIp)
    → is_active zone now b ≡ false
    → one_row b.ip rows ≡ true
    → any (λ c. str_eq c.ip b.ip) (select (is_active zone now) (upsert_ban rows b)) ≡ false
unfolding upsert_ban
select-upsert zone now [] b off one = ground (arith, off)
select-upsert zone now (c ∷ cs) b off one = elim (Bool-cases (str_eq c.ip b.ip)) [
  | inl same ↦
      let gone : any (λ d. str_eq d.ip b.ip) cs ≡ false = ground (arith, one, same) in
      rw (same, off) (select-absent (is_active zone now) b.ip cs gone)
  | inr other ↦
      let one' : one_row b.ip cs ≡ true = ground (arith, one, other) in
      rw other (ground (arith, other, select-upsert zone now cs b off one'))
]

-- The row that Ban writes.
abbrev pub ban_row : String → Reason → String → ℤ → ℕ → BannedIp
ban_row ip r tier d now = record {
  ip = ip;
  reason = r;
  tier = tier;
  created_at = now;
  expires_at = expires_at d now;
}

abbrev pub with_ban : Storage → BannedIp → Storage
with_ban s b = record s { banned_ips = upsert_ban s.banned_ips b }

store-ban :
    (l : Limiter) (s : Storage) (ip : String) (r : Reason) (tier : String) (d : ℤ) (now : ℕ)
    → l.auth_store ≡ some s
    → s.reachable ≡ true
    → (ban l ip r tier d now).auth_store ≡ some (with_ban s (ban_row ip r tier d now))
unfolding ban insert_ban
store-ban l s ip r tier d now e up = ground (arith, e, up)

banned-reload :
    (l : Limiter) (s : Storage) (later : ℕ)
    → l.auth_store ≡ some s
    → s.reachable ≡ true
    → (reload_throttle l later).banned ≡ ban_map (select (is_active s.zone later) s.banned_ips) []
unfolding reload_throttle reload_bans reload_policies get_active_bans
banned-reload l s later e up = ground (arith, e, up)

-- What the query makes of the end of a ban: whether its local time is not in a second before the UTC time.
abbrev pub is_shown : (zone d : ℤ) (now later : ℕ) → Bool
is_shown zone d now later = is_nonpos d || is_later zone later (expiry d now)

row-is_active :
    (zone : ℤ) (ip : String) (r : Reason) (tier : String) (d : ℤ) (now later : ℕ)
    → is_active zone later (ban_row ip r tier d now) ≡ is_shown zone d now later
unfolding is_active expires_at
row-is_active zone ip r tier d now later = ground arith

row-expiry : (d : ℤ) (now : ℕ) → or_else (expires_at d now) 0 ≡ expiry d now
unfolding expires_at expiry
row-expiry d now = ground arith

-- What a reload finds for the IP of a ban that could be written.
reload-ban :
    (l k : Limiter) (s : Storage) (ip : String) (r : Reason) (tier : String) (d : ℤ) (now later : ℕ)
    → l.auth_store ≡ some s
    → s.reachable ≡ true
    → one_row ip s.banned_ips ≡ true
    → k.auth_store ≡ (ban l ip r tier d now).auth_store
    → lookup (reload_throttle k later).banned ip
      ≡ (if is_shown s.zone d now later then some (expiry d now) else none)
unfolding lookup
reload-ban l k s ip r tier d now later e up one other =
    let b : BannedIp = ban_row ip r tier d now in
    let same = row-is_active s.zone ip r tier d now later in
    ap (λ (m : Map ℕ). lookup m ip)
      (banned-reload k (with_ban s b) later (other ∙ store-ban l s ip r tier d now e up) up)
    ∙ elim (Bool-cases (is_shown s.zone d now later)) [
      | inl t ↦
          ban_map-upsert s.zone later s.banned_ips [] b (same ∙ t) one
          ∙ ap some (row-expiry d now)
          ∙ sym (then_branch (is_shown s.zone d now later) _ _ t)
      | inr f ↦
          ban_map-absent (select (is_active s.zone later) (upsert_ban s.banned_ips b)) [] ip
            (select-upsert s.zone later s.banned_ips b (same ∙ f) one)
          ∙ sym (else_branch (is_shown s.zone d now later) _ _ f)
    ]

holds_if :
    (b : Bool) (exp t : ℕ) → holds (if b then some exp else none) t ≡ (b && holds (some exp) t)
holds_if true exp t = refl
holds_if false exp t = refl

-- A ban that could be written is in force after a reload, also in another process, exactly if it was in force
-- before and is permanent or the local time of its end is not in a second before the UTC time of the
-- reload. At most one row of the table has the IP.
pub is_banned-reload_throttle :
    (l k : Limiter) (s : Storage) (ip : String) (r : Reason) (tier : String) (d : ℤ)
    (now later t : ℕ)
    → l.auth_store ≡ some s
    → s.reachable ≡ true
    → one_row ip s.banned_ips ≡ true
    → k.auth_store ≡ (ban l ip r tier d now).auth_store
    → (is_banned (reload_throttle k later) ip t).1
      ≡ (is_shown s.zone d now later && (is_banned (ban l ip r tier d now) ip t).1)
is_banned-reload_throttle l k s ip r tier d now later t e up one other =
    let before : lookup (ban l ip r tier d now).banned ip ≡ some (expiry d now) =
      ap (λ (m : Map ℕ). lookup m ip) (banned-ban l ip r tier d now)
      ∙ lookup-insert l.banned ip ip (expiry d now)
      ∙ ground (arith, eq_refl ip) in
    is_banned-holds (reload_throttle k later) ip t
    ∙ ap (λ o. holds o t) (reload-ban l k s ip r tier d now later e up one other)
    ∙ holds_if (is_shown s.zone d now later) (expiry d now) t
    ∙ ap (λ o. is_shown s.zone d now later && holds o t) (sym before)
    ∙ ap (λ b. is_shown s.zone d now later && b)
        (sym (is_banned-holds (ban l ip r tier d now) ip t))
