-- ===== src/Udp/Flows.antt =====
-- proxy/udp.go: what a tick of the reaper and the end of the relay leave of the sessions and the sockets.
use re_mazarin.Common.{
  ◌+◌, ℕ, String, ◌≡◌, Bool, true, false, not, ◌&&◌, ◌||◌, List, [], ◌∷◌, Map, any, select, leb,
  ◌==◌, arith, refl, ap, ◌∙◌, sym, if◌then◌else◌,
}
use re_mazarin.Udp.{
  udp_session_timeout, UdpSession, UdpRelay, is_idle, reap_all, reaped, reap, close_socket,
  close_all, shut_down,
}

-- Within the last 120 seconds.
abbrev pub active : ℕ → UdpSession → Bool
active now f = leb now (f.last_active + udp_session_timeout)

is_idle-active : (now : ℕ) (f : UdpSession) → is_idle now f ≡ not (active now f)
unfolding is_idle
is_idle-active now f = ground arith

reaped-sessions :
    (b : Bool) (key : String) (f : UdpSession) (u : UdpRelay)
    → (reaped (not b) key f u).sessions ≡ (if b then (key, f) ∷ u.sessions else u.sessions)
unfolding close_socket
reaped-sessions true key f u = refl
reaped-sessions false key f u = refl

reap_all-sessions :
    (now : ℕ) (u : UdpRelay) (fs : Map UdpSession)
    → (reap_all now u fs).sessions ≡ select (λ x. active now x.1) fs
unfolding reap_all
reap_all-sessions now u [] = refl
reap_all-sessions now u ((key, f) ∷ fs) =
    ap (λ b. (reaped b key f (reap_all now u fs)).sessions) (is_idle-active now f)
    ∙ reaped-sessions (active now f) key f (reap_all now u fs)
    ∙ ap (λ gs. if active now f then (key, f) ∷ gs else gs) (reap_all-sessions now u fs)

-- The sockets of the sessions that a test picks.
abbrev pub has_socket : (UdpSession → Bool) → Map UdpSession → ℕ → Bool
has_socket p fs n = any (λ x. p x.1 && n == x.1.socket) fs

select-all {ℓ} : {A : Type ℓ} (xs : List A) → select (λ _. true) xs ≡ xs
select-all [] = refl
select-all (x ∷ xs) = ap (λ ys. x ∷ ys) (select-all xs)

-- A selection from what another one leaves.
select-or {ℓ} :
    {A : Type ℓ} (p q : A → Bool) (xs : List A)
    → select (λ x. not (p x)) (select (λ x. not (q x)) xs) ≡ select (λ x. not (p x || q x)) xs
select-or p q [] = refl
select-or p q (x ∷ xs) = ground (arith, select-or p q xs)

reaped-open :
    (b : Bool) (key : String) (f : UdpSession) (u : UdpRelay)
    → (reaped b key f u).open_sockets ≡ select (λ n. not (b && n == f.socket)) u.open_sockets
unfolding close_socket
reaped-open true key f u = refl
reaped-open false key f u = sym (select-all u.open_sockets)

reap_all-open :
    (now : ℕ) (u : UdpRelay) (fs : Map UdpSession)
    → (reap_all now u fs).open_sockets
      ≡ select (λ n. not (has_socket (λ f. not (active now f)) fs n)) u.open_sockets
unfolding reap_all
reap_all-open now u [] = sym (select-all u.open_sockets)
reap_all-open now u ((key, f) ∷ fs) =
    ap (λ b. (reaped b key f (reap_all now u fs)).open_sockets) (is_idle-active now f)
    ∙ reaped-open (not (active now f)) key f (reap_all now u fs)
    ∙ ap (select (λ n. not (not (active now f) && n == f.socket))) (reap_all-open now u fs)
    ∙ select-or (λ n. not (active now f) && n == f.socket) (has_socket (λ g. not (active now g)) fs)
        u.open_sockets

-- A tick of the reaper leaves exactly the sessions that were active within the last 120 seconds, in their
-- order, and closes exactly the sockets of the others.
pub reap-active :
    (u : UdpRelay) (now : ℕ)
    → ((reap u now).sessions ≡ select (λ x. active now x.1) u.sessions)
      × ((reap u now).open_sockets
          ≡ select (λ n. not (has_socket (λ f. not (active now f)) u.sessions n)) u.open_sockets)
unfolding reap
reap-active u now = (reap_all-sessions now u u.sessions, reap_all-open now u u.sessions)

select-swap {ℓ} :
    {A : Type ℓ} (p q : A → Bool) (xs : List A)
    → select (λ x. not (p x || q x)) xs ≡ select (λ x. not (q x || p x)) xs
select-swap p q [] = refl
select-swap p q (x ∷ xs) = ground (arith, select-swap p q xs)

close_all-open :
    (u : UdpRelay) (fs : Map UdpSession)
    → (close_all u fs).open_sockets ≡ select (λ n. not (has_socket (λ _. true) fs n)) u.open_sockets
unfolding close_all close_socket
close_all-open u [] = sym (select-all u.open_sockets)
close_all-open u ((key, f) ∷ fs) =
    close_all-open (close_socket u f.socket) fs
    ∙ select-or (has_socket (λ _. true) fs) (λ n. n == f.socket) u.open_sockets
    ∙ select-swap (has_socket (λ _. true) fs) (λ n. n == f.socket) u.open_sockets

pub shut_down-open :
    (u : UdpRelay)
    → (shut_down u).open_sockets
      ≡ select (λ n. not (has_socket (λ _. true) u.sessions n)) u.open_sockets
unfolding shut_down
shut_down-open u = close_all-open u u.sessions
