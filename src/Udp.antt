-- ===== src/Udp.antt =====
-- proxy/udp.go: the relay on one UDP port. A target socket is a number, and `open` holds those that are
-- not closed; a session is in the map under the address of its client. Each function is what one of the
-- goroutines does between two waits; the datagrams themselves are left out.
pub mod Flows
mod Owners
mod Sockets
mod Tests
use re_mazarin.Common.{
  ℕ, suc, ◌-◌, String, Bool, true, false, not, ◌&&◌, any, Option, none, some, List, [], ◌∷◌, Map,
  lookup, insert, delete, select, ltb, ◌==◌, str_eq, if◌then◌else◌,
}
use re_mazarin.Net.{Env, split_host_port}
use re_mazarin.Storage.Throttle.{tier_signed_in}
use re_mazarin.Limiter.{is_banned, set_tier}
use re_mazarin.Metrics.{served, banned, tcp_rejected, dial_error}
use re_mazarin.Auth.{World, event, fail_ip, log_access, authorize_ip}

-- 120 seconds
abbrev pub udp_session_timeout : ℕ
udp_session_timeout = 120000000000

pub record UdpSession : Type 0 where
  pub socket : ℕ
  pub last_active : ℕ

pub record UdpRelay : Type 0 where
  pub target : String
  pub route_url : String
  pub sessions : Map UdpSession
  pub open_sockets : List ℕ
  pub last_socket : ℕ

-- What becomes of a datagram from a client: it goes out over a socket, or nowhere.
pub data Packet : Type 0 where
  packet_dropped : Packet
  sent : (socket : ℕ) → Packet

-- SplitHostPort without its error.
unfoldable pub client_ip : String → String
client_ip key = elim (split_host_port key) [ none ↦ "" | some (ip, _) ↦ ip ]

unfoldable pub is_open : UdpRelay → (socket : ℕ) → Bool
is_open u socket = any (λ n. n == socket) u.open_sockets

-- The end of a round: the session is active, and the datagram goes to its target, unless the socket is
-- closed by now or Write fails, which is `writes`.
abbrev pub forward :
    UdpRelay → (key : String) → UdpSession → (writes : Bool) → ℕ → UdpRelay × Packet
forward u key f writes now = (
  record u { sessions = insert u.sessions key (record f { last_active = now }) },
  if is_open u f.socket && writes then sent f.socket else packet_dropped,
)

abbrev pub signed_in : World → String → String → ℕ → World
signed_in w ip user now =
    if str_eq user "" then w else record w { limiter = set_tier w.limiter ip tier_signed_in now }

-- Behind the authorisation; `dials` is whether the target's address is one.
unfoldable pub open_flow :
    World
    → UdpRelay
    → (key ip user : String) → (dials writes : Bool) → ℕ
    → World × (UdpRelay × Packet)
unfolding log_access is_open
open_flow w u key ip user dials writes now =
    let socket = suc u.last_socket in
    let opened : UdpRelay = record u {
      open_sockets = socket ∷ u.open_sockets;
      last_socket = socket;
    } in
    if dials
    then (
      log_access (event (signed_in w ip user now) ip u.route_url served now) ip user u.route_url,
      forward opened key (record { socket = socket; last_active = now }) writes now,
    )
    else (event w ip u.route_url dial_error now, (u, packet_dropped))

abbrev pub admit_flow :
    World × (Bool × String)
    → UdpRelay
    → (key ip : String) → (dials writes : Bool) → ℕ
    → World × (UdpRelay × Packet)
admit_flow (w, (true, user)) u key ip dials writes now = open_flow w u key ip user dials writes now
admit_flow (w, (false, user)) u key ip dials writes now = (
  fail_ip (event (log_access w ip "Unauthorized User" u.route_url) ip u.route_url tcp_rejected now)
      ip now,
  (u, packet_dropped),
)

-- The first packet of a flow.
unfoldable pub first_packet :
    Env
    → World
    → UdpRelay
    → (key ip : String) → (dials writes : Bool) → ℕ
    → World × (UdpRelay × Packet)
unfolding open_flow log_access
first_packet env w u key ip dials writes now =
    let (l, hit) = is_banned w.limiter ip now in
    let w' = record w { limiter = l } in
    if hit
    then (event w' ip u.route_url banned now, (u, packet_dropped))
    else admit_flow (authorize_ip env w' u.route_url ip now) u key ip dials writes now

abbrev pub receive_at :
    Env
    → World
    → UdpRelay
    → (key : String) → (dials writes : Bool) → ℕ
    → Option UdpSession
    → World × (UdpRelay × Packet)
receive_at env w u key dials writes now none =
    first_packet env w u key (client_ip key) dials writes now
receive_at env w u key dials writes now (some f) = (w, forward u key f writes now)

-- A round of the loop of runUDPProxy: a datagram from the client at the address `key`.
unfoldable pub receive :
    Env
    → World
    → UdpRelay
    → (key : String) → (dials writes : Bool) → ℕ
    → World × (UdpRelay × Packet)
unfolding first_packet client_ip is_open
receive env w u key dials writes now =
    receive_at env w u key dials writes now (lookup u.sessions key)

unfoldable pub close_socket : UdpRelay → ℕ → UdpRelay
close_socket u socket = record u { open_sockets = select (λ n. not (n == socket)) u.open_sockets }

-- pumpUDPReplies: a datagram from the target is activity of the session that has the socket.
abbrev pub touched : UdpRelay → (key : String) (socket : ℕ) → ℕ → Option UdpSession → UdpRelay
touched u key socket now none = u
touched u key socket now (some f) =
    if f.socket == socket
    then record u { sessions = insert u.sessions key (record f { last_active = now }) }
    else u

unfoldable pub pump_reply : UdpRelay → (key : String) (socket : ℕ) → ℕ → UdpRelay
pump_reply u key socket now = touched u key socket now (lookup u.sessions key)

abbrev pub removed : UdpRelay → (key : String) (socket : ℕ) → Option UdpSession → UdpRelay
removed u key socket none = u
removed u key socket (some f) =
    if f.socket == socket then record u { sessions = delete u.sessions key } else u

-- The two steps behind the end of a pump: the socket is closed, and the session goes out of the map, unless
-- the client has a newer one.
unfoldable pub end_pump : UdpRelay → (key : String) (socket : ℕ) → UdpRelay
end_pump u key socket = removed u key socket (lookup u.sessions key)

-- s.lastActive < now - 120s
unfoldable pub is_idle : ℕ → UdpSession → Bool
is_idle now f = ltb f.last_active (now - udp_session_timeout)

abbrev pub reaped : Bool → (key : String) → UdpSession → UdpRelay → UdpRelay
reaped true key f u = close_socket u f.socket
reaped false key f u = record u { sessions = (key, f) ∷ u.sessions }

unfoldable pub reap_all : ℕ → UdpRelay → Map UdpSession → UdpRelay
unfolding is_idle close_socket
reap_all now u [] = record u { sessions = [] }
reap_all now u ((key, f) ∷ fs) = reaped (is_idle now f) key f (reap_all now u fs)

-- A tick of reapUDPSessions.
unfoldable pub reap : UdpRelay → ℕ → UdpRelay
unfolding reap_all
reap u now = reap_all now u u.sessions

close_all : UdpRelay → Map UdpSession → UdpRelay
unfolding close_socket
close_all u [] = u
close_all u ((_, f) ∷ fs) = close_all (close_socket u f.socket) fs

-- The end of runUDPProxy: the target socket of every session is closed.
unfoldable pub shut_down : UdpRelay → UdpRelay
unfolding close_all
shut_down u = close_all u u.sessions

-- What the goroutines do.
pub data UdpEvent : Type 0 where
  datagram : (key : String) (dials writes : Bool) → UdpEvent
  reply : (key : String) (socket : ℕ) → UdpEvent
  pump_closes : (socket : ℕ) → UdpEvent
  pump_ends : (key : String) (socket : ℕ) → UdpEvent
  tick : UdpEvent

unfoldable pub udp_step : Env → World → UdpRelay → UdpEvent → ℕ → World × UdpRelay
unfolding receive pump_reply close_socket end_pump reap
udp_step env w u (datagram key dials writes) now =
    let (w', (u', _)) = receive env w u key dials writes now in (w', u')
udp_step env w u (reply key socket) now = (w, pump_reply u key socket now)
udp_step env w u (pump_closes socket) now = (w, close_socket u socket)
udp_step env w u (pump_ends key socket) now = (w, end_pump u key socket)
udp_step env w u tick now = (w, reap u now)
