-- ===== src/Udp/Sockets.antt =====
-- proxy/udp.go: who closes the target sockets, through every step of the goroutines.
use re_mazarin.Common.{
  Bool-cases, inl, inr, then_branch, else_branch, ℕ, suc, String, ◌≡◌, Bool, true, false, not, ◌&&◌,
  Option, none, some, [], lookup, delete, any, arith, refl, ap, ◌∙◌, sym, subst, str_eq, ◌==◌,
  eq_iff, lookup-insert, lookup-delete,
}
use re_mazarin.Net.{Env}
use re_mazarin.Limiter.{is_banned}
use re_mazarin.Auth.{World, authorize_ip}
use re_mazarin.Udp.{
  UdpSession, UdpRelay, Packet, client_ip, is_open, forward, admit_flow, open_flow, first_packet,
  receive_at, receive, touched, pump_reply, removed, end_pump, reap, close_socket, shut_down,
  UdpEvent, datagram, reply, pump_closes, pump_ends, tick, udp_step,
}
use re_mazarin.Udp.Owners.{
  Owned, any-select, select-none_left, Owned-insert, lookup-has_socket, lookup-select_active,
}
use re_mazarin.Udp.Flows.{active, has_socket, reap-active, shut_down-open}

-- Every socket that is not closed is that of a session in the map.
abbrev NoLeak : UdpRelay → Type 0
NoLeak u = (n : ℕ) → is_open u n ≡ true → Owned u.sessions n

abbrev relay_of : World × (UdpRelay × Packet) → UdpRelay
relay_of (_, (u, _)) = u

module _ (u : UdpRelay) (key : String) (safe : NoLeak u) where
  forward-NoLeak :
      (f : UdpSession) (writes : Bool) (now : ℕ)
      → lookup u.sessions key ≡ some f
      → NoLeak (forward u key f writes now).0
  unfolding is_open
  forward-NoLeak f writes now h n live =
      Owned-insert u.sessions key (record f { last_active = now }) n
        (λ g e. ground (arith, sym h ∙ e)) (safe n live)

  open_flow-NoLeak :
      (w : World) (ip user : String) (dials writes : Bool) (now : ℕ)
      → lookup u.sessions key ≡ none
      → NoLeak (relay_of (open_flow w u key ip user dials writes now))
  unfolding open_flow is_open
  open_flow-NoLeak w ip user false writes now h n live = safe n live
  open_flow-NoLeak w ip user true writes now h n live =
      let g : UdpSession = record { socket = suc u.last_socket; last_active = now } in
      elim (Bool-cases (suc u.last_socket == n)) [
        | inl t ↦ (
          key,
          g,
          lookup-insert u.sessions key key g ∙ ground (arith, eq_iff key key),
          ground (arith, t),
        )
        | inr d ↦
            Owned-insert u.sessions key g n (λ f e. ground (arith, h, e))
              (safe n (ground (arith, live, d)))
      ]

  admit_flow-NoLeak :
      (x : World × (Bool × String)) (ip : String) (dials writes : Bool) (now : ℕ)
      → lookup u.sessions key ≡ none
      → NoLeak (relay_of (admit_flow x u key ip dials writes now))
  admit_flow-NoLeak (w, (true, user)) ip dials writes now h =
      open_flow-NoLeak w ip user dials writes now h
  admit_flow-NoLeak (w, (false, user)) ip dials writes now h = safe

  first_packet-NoLeak :
      (env : Env) (w : World) (ip : String) (dials writes : Bool) (now : ℕ)
      → lookup u.sessions key ≡ none
      → NoLeak (relay_of (first_packet env w u key ip dials writes now))
  unfolding first_packet
  first_packet-NoLeak env w ip dials writes now h =
      elim (Bool-cases (is_banned w.limiter ip now).1) [
        | inl t ↦ subst (λ x. NoLeak (relay_of x)) (sym (then_branch _ _ _ t)) safe
        | inr d ↦
            subst (λ x. NoLeak (relay_of x)) (sym (else_branch _ _ _ d))
              (admit_flow-NoLeak
                (authorize_ip env (record w { limiter = (is_banned w.limiter ip now).0 })
                  u.route_url ip now)
                ip dials writes now h)
      ]

  receive_at-NoLeak :
      (env : Env) (w : World) (dials writes : Bool) (now : ℕ) (o : Option UdpSession)
      → lookup u.sessions key ≡ o
      → NoLeak (relay_of (receive_at env w u key dials writes now o))
  receive_at-NoLeak env w dials writes now none h =
      first_packet-NoLeak env w (client_ip key) dials writes now h
  receive_at-NoLeak env w dials writes now (some f) h = forward-NoLeak f writes now h

  touched-NoLeak :
      (socket now : ℕ) (o : Option UdpSession)
      → lookup u.sessions key ≡ o
      → NoLeak (touched u key socket now o)
  touched-NoLeak socket now none h = safe
  touched-NoLeak socket now (some f) h = elim (Bool-cases (f.socket == socket)) [
    | inl t ↦ subst NoLeak (sym (then_branch _ _ _ t)) (forward-NoLeak f true now h)
    | inr d ↦ subst NoLeak (sym (else_branch _ _ _ d)) safe
  ]

  -- The session that goes out of the map has a socket that is closed.
  deleted-Owned :
      (f : UdpSession) (socket n : ℕ)
      → lookup u.sessions key ≡ some f
      → f.socket ≡ socket
      → is_open u socket ≡ false
      → is_open u n ≡ true
      → Owned u.sessions n
      → Owned (delete u.sessions key) n
  deleted-Owned f socket n h s closed live (k, g, e, t) = elim (Bool-cases (str_eq key k)) [
    | inl b ↦
        let same : key ≡ k = (eq_iff key k).0 b in
        let again : some f ≡ some g = sym h ∙ ap (lookup u.sessions) same ∙ e in
        let one : socket ≡ n = sym s ∙ ground (arith, again) ∙ t in
        absurd (cc (ap (is_open u) one, closed, live))
    | inr b ↦ (k, g, lookup-delete u.sessions key k ∙ else_branch (str_eq key k) _ _ b ∙ e, t)
  ]

  removed-NoLeak :
      (socket : ℕ) (o : Option UdpSession)
      → lookup u.sessions key ≡ o
      → is_open u socket ≡ false
      → NoLeak (removed u key socket o)
  unfolding is_open
  removed-NoLeak socket none h closed = safe
  removed-NoLeak socket (some f) h closed = elim (Bool-cases (f.socket == socket)) [
    | inl t ↦
        subst NoLeak (sym (then_branch _ _ _ t))
          (λ n live. deleted-Owned f socket n h (ground (arith, t)) closed live (safe n live))
    | inr d ↦ subst NoLeak (sym (else_branch _ _ _ d)) safe
  ]

close_socket-NoLeak : (u : UdpRelay) (socket : ℕ) → NoLeak u → NoLeak (close_socket u socket)
unfolding close_socket is_open
close_socket-NoLeak u socket safe n live =
    let both = sym (any-select (λ k. not (k == socket)) u.open_sockets n) ∙ live in
    safe n (ground (arith, both))

reap-NoLeak : (u : UdpRelay) (now : ℕ) → NoLeak u → NoLeak (reap u now)
unfolding is_open
reap-NoLeak u now safe n live =
    let (kept, closed) = reap-active u now in
    let idle = has_socket (λ f. not (active now f)) u.sessions in
    let both : (not (idle n) && any (λ k. k == n) u.open_sockets) ≡ true =
      sym (any-select (λ k. not (idle k)) u.open_sockets n)
      ∙ ap (any (λ k. k == n)) (sym closed)
      ∙ live in
    let (key, f, h, s) = safe n (ground (arith, both)) in
    elim (Bool-cases (active now f)) [
      | inl t ↦ (
        key,
        f,
        ap (λ m. lookup m key) kept ∙ lookup-select_active (active now) u.sessions key f h t,
        s,
      )
      | inr d ↦
          let hit : idle n ≡ true =
            ap idle (sym s)
            ∙ lookup-has_socket (λ g. not (active now g)) u.sessions key f h (ap not d) in
          absurd (ground (arith, both, hit))
    ]

-- The pump of a session closes the socket before it looks for the session in the map.
abbrev pub in_order : UdpRelay → UdpEvent → Bool
in_order u (datagram _ _ _) = true
in_order u (reply _ _) = true
in_order u (pump_closes _) = true
in_order u (pump_ends _ socket) = not (is_open u socket)
in_order u tick = true

udp_step-NoLeak :
    (env : Env) (w : World) (u : UdpRelay) (e : UdpEvent) (now : ℕ)
    → in_order u e ≡ true
    → NoLeak u
    → NoLeak (udp_step env w u e now).1
unfolding udp_step receive pump_reply end_pump
udp_step-NoLeak env w u (datagram key dials writes) now ok safe =
    receive_at-NoLeak u key safe env w dials writes now (lookup u.sessions key) refl
udp_step-NoLeak env w u (reply key socket) now ok safe =
    touched-NoLeak u key safe socket now (lookup u.sessions key) refl
udp_step-NoLeak env w u (pump_closes socket) now ok safe = close_socket-NoLeak u socket safe
udp_step-NoLeak env w u (pump_ends key socket) now ok safe =
    removed-NoLeak u key safe socket (lookup u.sessions key) refl (ground (arith, ok))
udp_step-NoLeak env w u tick now ok safe = reap-NoLeak u now safe

abbrev pub started_relay : (target route_url : String) → UdpRelay
started_relay target route_url = record {
  target = target;
  route_url = route_url;
  sessions = [];
  open_sockets = [];
  last_socket = 0;
}

-- The states of a relay: any goroutine takes the next step, and the rest of the program may have changed the
-- variables of the package by then.
pub data IsReachable (env : Env) (target route_url : String) : UdpRelay → Type 0 where
  started : IsReachable env target route_url (started_relay target route_url)
  stepped :
      (w : World) (u : UdpRelay) (e : UdpEvent) (now : ℕ)
      → in_order u e ≡ true
      → IsReachable env target route_url u
      → IsReachable env target route_url (udp_step env w u e now).1

-- In every state that a relay reaches, whatever the order of the steps of its goroutines, a target socket that
-- is not closed is that of a session in the map: neither the reaper, nor the end of a pump that outlived
-- its session, forgets an open socket.
pub IsReachable-Owned :
    (env : Env) (target route_url : String) (u : UdpRelay) (n : ℕ)
    → IsReachable env target route_url u
    → is_open u n ≡ true
    → Owned u.sessions n
unfolding is_open
IsReachable-Owned env target route_url _ n started live = absurd (ground (arith, live))
IsReachable-Owned env target route_url _ n (stepped w u e now ok r) live =
    udp_step-NoLeak env w u e now ok (λ k. IsReachable-Owned env target route_url u k r) n live

-- When a relay ends, in whatever state it is by then, every target socket that it opened is closed.
pub shut_down-closed :
    (env : Env) (target route_url : String) (u : UdpRelay)
    → IsReachable env target route_url u
    → (shut_down u).open_sockets ≡ []
unfolding is_open
shut_down-closed env target route_url u r =
    shut_down-open u
    ∙ select-none_left (λ n. not (has_socket (λ _. true) u.sessions n)) u.open_sockets
        (λ n live.
          let (key, f, h, s) = IsReachable-Owned env target route_url u n r live in
          ap not (
            ap (has_socket (λ _. true) u.sessions) (sym s)
            ∙ lookup-has_socket (λ _. true) u.sessions key f h refl))
