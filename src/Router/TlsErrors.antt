-- ===== src/Router/TlsErrors.antt =====
-- The Write of tlsErrWriter in proxy/listeners.go: what net/http logs of a connection that no handler sees.
use re_mazarin.Common.{ℕ, String, Option, none, some}
use re_mazarin.Common.Text.{cut, trim_space}
use re_mazarin.Net.{split_host_port}
use re_mazarin.Metrics.{tls_error}
use re_mazarin.Auth.{World, event, fail_ip}

abbrev marker : String
marker = "TLS handshake error from "

-- The address ends at the first colon that a space follows.
addr_of : String → String
unfolding cut
addr_of rest = elim (cut ": " rest) [ some (addr, _) ↦ addr | none ↦ rest ]

ip_of : String → String
unfolding split_host_port
ip_of addr = elim (split_host_port addr) [ some (ip, _) ↦ ip | none ↦ addr ]

-- The IP that a line of the log names, if it is one of a failed handshake.
unfoldable pub handshake_ip : String → Option String
unfolding cut addr_of ip_of trim_space
handshake_ip line = elim (cut marker (trim_space line)) [
  | some (_, rest) ↦ some (ip_of (trim_space (addr_of rest)))
  | none ↦ none
]

-- A failed handshake is an event of the port and a failure of the IP.
unfoldable pub write : World → (port line : String) → ℕ → World
unfolding handshake_ip
write w port line now = elim (handshake_ip line) [
  | some ip ↦ fail_ip (event w ip (Prim.Native.String.◌++◌ ":" port) tls_error now) ip now
  | none ↦ w
]
