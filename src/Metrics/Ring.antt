-- ===== src/Metrics/Ring.antt =====
-- The ring of recent events refines the list of all events: it shows the latest of them.
use re_mazarin.Common.{
  ℕ, zero, suc, ◌+◌, ◌-◌, ◌%◌, ◌≤◌, ◌<◌, String, ◌≡◌, ◌≢◌, List, [], ◌∷◌, refl, arith, length, take,
  get_or, length-set, get_or-set_self, get_or-set_ne, if◌then◌else◌, min, ap, ◌∙◌, replicate,
  str_eq, Bool, true, false, ◌&&◌, Map, lookup, lookup-insert, or_else, eq_iff,
}
use native.Mathlib.Nat.{zero-add}
use re_mazarin.Metrics.{
  Event, Metrics, Outcome, served, outcome_name, push, walk, get_recent_events, zero_event,
  record_event, bump, count_route,
}

-- `h` is the list of all events, the latest first.
pub record Represents (m : Metrics) (h : List Event) : Type 0 where
  pub size : length m.event_ring ≡ 500
  pub head_lt : m.event_head < 500
  pub count : m.event_count ≡ min 500 (length h)
  pub slots :
      (i : ℕ)
      → i < m.event_count
      → get_or m.event_ring ((m.event_head + 500 - 1 - i) % 500) zero_event ≡ get_or h i zero_event

slot_head : (head : ℕ) → head < 500 → ((head + 1) % 500 + 500 - 1 - 0) % 500 ≡ head
slot_head head h = omega arith

slot_later :
    (head i : ℕ)
    → head < 500
    → i < 499
    → (((head + 1) % 500 + 500 - 1 - suc i) % 500 ≡ (head + 500 - 1 - i) % 500)
      × (head ≢ (head + 500 - 1 - i) % 500)
slot_later head i h k = omega arith

push-slots :
    (m : Metrics) (h : List Event) (ev : Event) (i : ℕ)
    → Represents m h
    → i < (push m ev).event_count
    → get_or (push m ev).event_ring (((push m ev).event_head + 500 - 1 - i) % 500) zero_event
      ≡ get_or (ev ∷ h) i zero_event
unfolding push
push-slots m h ev zero r lt =
    rw (slot_head m.event_head r.head_lt)
      (get_or-set_self m.event_ring m.event_head ev zero_event (omega (arith, r.size, r.head_lt)))
push-slots m h ev (suc i) r lt =
    let below : i < m.event_count × i < 499 = ground (arith, r.count) in
    let (same, other) = slot_later m.event_head i r.head_lt below.1 in
    rw (same, get_or-set_ne m.event_ring m.event_head _ ev zero_event other) (r.slots i below.0)

push-Represents :
    (m : Metrics) (h : List Event) (ev : Event) → Represents m h → Represents (push m ev) (ev ∷ h)
push-Represents m h ev r = record {
  size = unfold push in rw (length-set m.event_ring m.event_head ev) r.size;
  head_lt = unfold push in omega arith;
  count = unfold push in ground (arith, r.count);
  slots = λ i lt. push-slots m h ev i r lt;
}

walk_on : (ℕ → Event) → (n i : ℕ) → List Event
walk_on f zero i = []
walk_on f (suc n) i = f i ∷ walk_on f n (i + 1)

walk-walk_on :
    (m : Metrics) (n i : ℕ)
    → walk m n i
      ≡ walk_on (λ j. get_or m.event_ring ((m.event_head + 500 - 1 - j) % 500) zero_event) n i
unfolding walk walk_on
walk-walk_on m zero i = refl
walk-walk_on m (suc n) i = rw (walk-walk_on m n (i + 1))

walk_on-take :
    (f : ℕ → Event) (n i : ℕ) (h : List Event)
    → n ≤ length h
    → ((j : ℕ) → j < n → f (i + j) ≡ get_or h j zero_event)
    → walk_on f n i ≡ take n h
unfolding walk_on
walk_on-take f zero i h le same = refl
walk_on-take f (suc n) i [] le same = absurd (omega arith)
walk_on-take f (suc n) i (x ∷ h) le same =
    let first : f i ≡ x = ap f (omega arith) ∙ same 0 (omega arith) in
    let later =
      walk_on-take f n (i + 1) h (omega arith)
        (λ j lt. ap f (omega arith) ∙ same (suc j) (omega arith)) in
    cc

take-min : (n : ℕ) (h : List Event) → take (min n (length h)) h ≡ take n h
take-min zero h = let e : min 0 (length h) ≡ 0 = omega arith in rw e
take-min (suc n) [] = let e : min (suc n) 0 ≡ 0 = omega arith in rw e
take-min (suc n) (x ∷ h) =
    let e : min (suc n) (suc (length h)) ≡ suc (min n (length h)) = omega arith in
    rw e (ap (λ t. x ∷ t) (take-min n h))

get_recent_events_lem :
    (m : Metrics) (h : List Event) → Represents m h → get_recent_events m ≡ take 500 h
unfolding get_recent_events
get_recent_events_lem m h r =
    walk-walk_on m m.event_count 0
    ∙ walk_on-take (λ j. get_or m.event_ring ((m.event_head + 500 - 1 - j) % 500) zero_event)
        m.event_count 0 h (omega (arith, r.count)) (λ j lt. rw zero-add (r.slots j lt))
    ∙ ap (λ n. take n h) r.count
    ∙ take-min 500 h

-- The variables of the package at the start of the process.
abbrev pub initial : Metrics
initial = record {
  route_counters = [];
  event_counters = [];
  event_ring = replicate 500 zero_event;
  event_head = 0;
  event_count = 0;
}

-- Some events recorded one after the other, the latest at the head.
pub record_all : Metrics → List Event → Metrics
record_all m [] = m
record_all m (e ∷ es) = record_event (record_all m es) e.ip e.route e.outcome e.time

initial-Represents : Represents initial []
initial-Represents = record {
  size = refl;
  head_lt = omega arith;
  count = omega arith;
  slots = λ i lt. absurd (omega arith);
}

with_counters-Represents :
    (m m' : Metrics) (h : List Event)
    → m'.event_ring ≡ m.event_ring
    → m'.event_head ≡ m.event_head
    → m'.event_count ≡ m.event_count
    → Represents m h
    → Represents m' h
with_counters-Represents m m' h a b c r = record {
  size = rw a r.size;
  head_lt = rw b r.head_lt;
  count = rw c r.count;
  slots = rw (a, b, c) r.slots;
}

record_all-Represents : (h : List Event) → Represents (record_all initial h) h
unfolding record_all record_event
record_all-Represents [] = initial-Represents
record_all-Represents (e ∷ es) = push-Represents _ es e (
    with_counters-Represents (record_all initial es) _ es refl refl refl (record_all-Represents es))

-- However many events were recorded, the admin page is shown the latest 500 of them, latest first.
pub recent_events : (h : List Event) → get_recent_events (record_all initial h) ≡ take 500 h
recent_events h = get_recent_events_lem (record_all initial h) h (record_all-Represents h)

-- How many events of a list have an outcome, and how many of those served went to a route.
abbrev pub outcomes : String → List Event → ℕ
outcomes name [] = 0
outcomes name (e ∷ es) =
    if str_eq (outcome_name e.outcome) name then suc (outcomes name es) else outcomes name es

abbrev pub is_served : Outcome → Bool
is_served served = true
is_served _ = false

abbrev pub served_to : String → List Event → ℕ
served_to route [] = 0
served_to route (e ∷ es) =
    if is_served e.outcome && str_eq e.route route
    then suc (served_to route es)
    else served_to route es

lookup-bump :
    (m : Map ℕ) (k j : String) (n : ℕ)
    → or_else (lookup (bump m k n) j) 0
      ≡ (if str_eq k j then or_else (lookup m k) 0 + n else or_else (lookup m j) 0)
unfolding bump
lookup-bump m k j n = rw lookup-insert (ground arith)

lookup-count_route :
    (m : Map ℕ) (j route : String) (o : Outcome)
    → or_else (lookup (count_route m j o) route) 0 ≡ (
        if is_served o && str_eq j route
        then suc (or_else (lookup m route) 0)
        else or_else (lookup m route) 0)
unfolding count_route
lookup-count_route m j route served = rw lookup-bump (ground (arith, eq_iff j route))
lookup-count_route m j route _ = refl

-- The counters count: each outcome's counter is the number of events with that outcome, and each
-- route's counter is the number of events served to that route.
pub counters_exact :
    (h : List Event) (name route : String)
    → (or_else (lookup (record_all initial h).event_counters name) 0 ≡ outcomes name h)
      × (or_else (lookup (record_all initial h).route_counters route) 0 ≡ served_to route h)
unfolding record_all record_event push lookup
counters_exact [] name route = (refl, refl)
counters_exact (e ∷ es) name route =
    let ih = counters_exact es name route in
    let m : Metrics = record_all initial es in
    (
      rw lookup-bump (ground (arith, ih.0, eq_iff (outcome_name e.outcome) name)),
      rw lookup-count_route (ground (arith, ih.1)),
    )
