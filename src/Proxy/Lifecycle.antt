-- ===== src/Proxy/Lifecycle.antt =====
-- The states of a running proxy, as the callbacks of main.go change it, in any order: a start; routes that are
-- validated and registered, when they are made; routes that are registered again without that, when their
-- target is changed, where a raw TCP route must still have its relay; routes that are removed.
use re_mazarin.Common.{refl, String, ◌≡◌, Bool, true, Option, none, some, not, ◌||◌, arith}
use re_mazarin.Proxy.{
  Host, Proxy, ProxyRoute, has_key, is_tcp, parse_host_port, validate_route, register_route,
  unregister_route,
}
use re_mazarin.Proxy.Registry.{
  Exclusive, is_free, register_free-Exclusive, register_route-Exclusive,
}
use re_mazarin.Proxy.Handlers.{unregister_route-Exclusive}
use re_mazarin.Proxy.Startup.{start_proxy}
use re_mazarin.Proxy.Startup.Ports.{start_proxy-Exclusive}

-- The port of a raw TCP route still has its relay.
abbrev pub is_relayed : Proxy → (kind : String) → Option (String × String) → Bool
is_relayed p kind none = true
is_relayed p kind (some (_, port)) = not (is_tcp kind) || has_key p.tcp_cancels port

relayed_free :
    (p : Proxy) (kind : String) (o : Option (String × String))
    → Exclusive p
    → is_relayed p kind o ≡ true
    → is_free p kind o ≡ true
relayed_free p kind none ex e = refl
relayed_free p kind (some (host, port)) ex e = ground (arith, ex port, e)

pub data Reachable (h : Host) : Proxy → Type 0 where
  start : (p : Proxy) → (start_proxy h p).1 ≡ none → Reachable h (start_proxy h p).0
  register :
      (p : Proxy) (r : ProxyRoute)
      → Reachable h p
      → validate_route p r.url r.kind ≡ none
      → Reachable h (register_route h p r).0
  retarget :
      (p : Proxy) (r : ProxyRoute)
      → Reachable h p
      → is_relayed p r.kind (parse_host_port r.url) ≡ true
      → Reachable h (register_route h p r).0
  unregister : (p : Proxy) (url : String) → Reachable h p → Reachable h (unregister_route p url)

-- In every state that a running proxy reaches, no port has both an HTTP listener and a raw TCP listener, as
-- long as a change of a target, which is not validated, does not start a raw TCP route anew whose
-- relay was stopped.
pub Reachable-Exclusive : (h : Host) (p : Proxy) → Reachable h p → Exclusive p
unfolding register_route
Reachable-Exclusive h _ (start p done) = start_proxy-Exclusive h p done
Reachable-Exclusive h _ (register p r before valid) =
    register_route-Exclusive h p r (Reachable-Exclusive h p before) valid
Reachable-Exclusive h _ (retarget p r before relayed) =
    let ex : Exclusive p = Reachable-Exclusive h p before in
    register_free-Exclusive h p r (parse_host_port r.url) ex
      (relayed_free p r.kind (parse_host_port r.url) ex relayed)
Reachable-Exclusive h _ (unregister p url before) =
    unregister_route-Exclusive p url (Reachable-Exclusive h p before)
