-- ===== src/Udp/Tests.antt =====
-- Runs of the relay of UDP packets.
use re_mazarin.Common.{◌≡◌, true, not, [], ◌∷◌, lookup, insert, delete, select, refl}
use re_mazarin.Limiter.{is_banned}
use re_mazarin.Auth.{authorize_ip}
use re_mazarin.Udp.{
  UdpSession, UdpRelay, receive, reap, udp_step, datagram, pump_closes, pump_ends, shut_down,
  is_open,
}
use re_mazarin.Udp.Sockets.{
  in_order, IsReachable, started, stepped, started_relay, IsReachable-Owned, shut_down-closed,
}
use re_mazarin.Udp.Owners.{Owned}
use re_mazarin.Udp.Flows.{active, has_socket, reap-active}
use re_mazarin.Fixtures.{env, world}

abbrev flow : UdpSession
flow = record { socket = 2; last_active = 900000000000 }

abbrev idle_flow : UdpSession
idle_flow = record { socket = 1; last_active = 5 }

abbrev relay : UdpRelay
relay = record {
  target = "10.0.0.1:3478";
  route_url = "app:443";
  sessions = ("9.9.9.9:700", idle_flow) ∷ ("1.2.3.4:600", flow) ∷ [];
  open_sockets = 2 ∷ 1 ∷ [];
  last_socket = 2;
}

reap-active_example :
    ((reap relay 950000000000).sessions ≡ select (λ x. active 950000000000 x.1) relay.sessions)
    × ((reap relay 950000000000).open_sockets
        ≡ select
            (λ n. not (has_socket (λ f. not (active 950000000000 f)) relay.sessions n))
            relay.open_sockets)
reap-active_example = reap-active relay 950000000000

abbrev first_client : UdpRelay
first_client =
    (udp_step env world (started_relay "10.0.0.1:3478" "open:1") (datagram "1.2.3.4:600" true true)
      100).1

abbrev second_client : UdpRelay
second_client = (udp_step env world first_client (datagram "1.2.3.4:601" true true) 200).1

abbrev first_closed : UdpRelay
first_closed = (udp_step env world second_client (pump_closes 1) 300).1

abbrev first_gone : UdpRelay
first_gone = (udp_step env world first_closed (pump_ends "1.2.3.4:600" 1) 400).1

is_closed : in_order first_closed (pump_ends "1.2.3.4:600" 1) ≡ true
unfolding udp_step receive lookup is_banned authorize_ip insert is_open
is_closed = refl

reached : IsReachable env "10.0.0.1:3478" "open:1" first_gone
reached = stepped world first_closed (pump_ends "1.2.3.4:600" 1) 400 is_closed (
    stepped world second_client (pump_closes 1) 300 refl (
      stepped world first_client (datagram "1.2.3.4:601" true true) 200 refl (
        stepped world (started_relay "10.0.0.1:3478" "open:1") (datagram "1.2.3.4:600" true true)
          100 refl started)))

left_open : is_open first_gone 2 ≡ true
unfolding udp_step receive lookup is_banned authorize_ip insert is_open
left_open = refl

IsReachable-Owned_example : Owned first_gone.sessions 2
IsReachable-Owned_example =
    IsReachable-Owned env "10.0.0.1:3478" "open:1" first_gone 2 reached left_open

shut_down-closed_example : (shut_down first_gone).open_sockets ≡ []
shut_down-closed_example = shut_down-closed env "10.0.0.1:3478" "open:1" first_gone reached

one_session : first_gone.sessions ≡ ("1.2.3.4:601", record { socket = 2; last_active = 200 }) ∷ []
unfolding udp_step receive lookup is_banned authorize_ip insert delete
one_session = refl
