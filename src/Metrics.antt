-- ===== src/Metrics.antt =====
-- proxy/metrics.go: the counters and the ring of recent events. `RecordEvent` is one step: the source
-- adds to the counters atomically and holds a lock around the ring.
pub mod Ring
mod Tests
use re_mazarin.Common.{
  ℕ, zero, suc, ◌+◌, ◌-◌, ◌%◌, String, List, [], ◌∷◌, Map, lookup, insert, ltb, if◌then◌else◌,
  or_else, set, get_or,
}

pub data Outcome : Type 0 where
  served denied rate_limited banned not_found no_listener tls_error tcp_rejected dial_error :
      Outcome

abbrev pub outcome_name : Outcome → String
outcome_name served = "served"
outcome_name denied = "denied"
outcome_name rate_limited = "rate_limited"
outcome_name banned = "banned"
outcome_name not_found = "not_found"
outcome_name no_listener = "no_listener"
outcome_name tls_error = "tls_error"
outcome_name tcp_rejected = "tcp_rejected"
outcome_name dial_error = "dial_error"

abbrev pub recent_events_cap : ℕ
recent_events_cap = 500

pub record Event : Type 0 where
  pub time : ℕ
  pub ip : String
  pub route : String
  pub outcome : Outcome

pub record Metrics : Type 0 where
  pub route_counters : Map ℕ
  pub event_counters : Map ℕ
  pub event_ring : List Event
  pub event_head : ℕ
  pub event_count : ℕ

-- atomic.AddInt64 on a counter that is made when it is missing
unfoldable pub bump : Map ℕ → String → ℕ → Map ℕ
bump m k n = insert m k (or_else (lookup m k) 0 + n)

served_count : Outcome → ℕ
served_count served = 1
served_count _ = 0

count_route : Map ℕ → String → Outcome → Map ℕ
unfolding bump
count_route m route served = bump m route 1
count_route m route _ = m

-- The part under the lock.
unfoldable pub push : Metrics → Event → Metrics
push m ev = record m {
  event_ring = set m.event_ring m.event_head ev;
  event_head = (m.event_head + 1) % recent_events_cap;
  event_count = if ltb m.event_count recent_events_cap then m.event_count + 1 else m.event_count;
}

unfoldable pub record_event : Metrics → (ip route : String) → Outcome → (now : ℕ) → Metrics
unfolding count_route push bump
record_event m ip route outcome now =
    push
      (record m {
        event_counters = bump m.event_counters (outcome_name outcome) 1;
        route_counters = count_route m.route_counters route outcome;
      })
      (record { time = now; ip = ip; route = route; outcome = outcome })

abbrev zero_event : Event
zero_event = record { time = 0; ip = ""; route = ""; outcome = served }

-- The loop of GetRecentEvents, with `n` rounds left from round `i`.
unfoldable pub walk : Metrics → (n i : ℕ) → List Event
walk m zero i = []
walk m (suc n) i =
    get_or m.event_ring ((m.event_head + recent_events_cap - 1 - i) % recent_events_cap) zero_event
    ∷ walk m n (i + 1)

unfoldable pub get_recent_events : Metrics → List Event
unfolding walk
get_recent_events m = walk m m.event_count 0
