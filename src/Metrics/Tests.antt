-- ===== src/Metrics/Tests.antt =====
-- Runs of the properties of the metrics.
use re_mazarin.Common.{◌≡◌, [], ◌∷◌, lookup, or_else, List}
use re_mazarin.Metrics.{Event, served, denied, get_recent_events}
use re_mazarin.Metrics.Ring.{initial, record_all, recent_events, counters_exact}

abbrev two_events : List Event
two_events =
    record { time = 2; ip = "1.2.3.4"; route = "app:443"; outcome = served }
    ∷ record { time = 1; ip = "9.9.9.9"; route = "app:443"; outcome = denied }
    ∷ []

recent_events_example : get_recent_events (record_all initial two_events) ≡ two_events
recent_events_example = recent_events two_events

counters_exact_example :
    (or_else (lookup (record_all initial two_events).event_counters "denied") 0 ≡ 1)
    × (or_else (lookup (record_all initial two_events).route_counters "app:443") 0 ≡ 1)
counters_exact_example = counters_exact two_events "denied" "app:443"
