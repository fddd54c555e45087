-- ===== src/Udp/Owners.antt =====
-- The sessions of proxy/udp.go as the owners of sockets, when the map changes.
use re_mazarin.Common.{
  Bool-cases, inl, inr, then_branch, else_branch, ℕ, String, ◌≡◌, Bool, true, false, ◌&&◌, ◌||◌,
  some, List, [], ◌∷◌, Map, lookup, insert, select, any, arith, refl, ap, ◌∙◌, subst, str_eq, ◌==◌,
  eq_iff, lookup-insert,
}
use re_mazarin.Udp.{UdpSession}
use re_mazarin.Udp.Flows.{has_socket}

-- A session of the map has the socket.
abbrev pub Owned : Map UdpSession → ℕ → Type 0
Owned m n = (key : String) × (f : UdpSession) × (lookup m key ≡ some f) × (f.socket ≡ n)

pub any-select :
    (q : ℕ → Bool) (xs : List ℕ) (n : ℕ)
    → any (λ k. k == n) (select q xs) ≡ (q n && any (λ k. k == n) xs)
any-select q [] n = ground arith
any-select q (x ∷ xs) n = elim (Bool-cases (x == n)) [
  | inl t ↦
      let e : x ≡ n = ground (arith, t) in
      subst (λ y. any (λ k. k == y) (select q (x ∷ xs)) ≡ (q y && any (λ k. k == y) (x ∷ xs))) e
        (ground (arith, any-select q xs x))
  | inr f ↦ ground (arith, f, any-select q xs n)
]

pub select-none_left :
    (q : ℕ → Bool) (xs : List ℕ)
    → ((n : ℕ) → any (λ k. k == n) xs ≡ true → q n ≡ false)
    → select q xs ≡ []
select-none_left q [] h = refl
select-none_left q (x ∷ xs) h =
    rw (h x (ground arith)) (select-none_left q xs (λ n e. h n (ground (arith, e))))

-- The session under a key is replaced by one with the same socket, or is new.
pub Owned-insert :
    (m : Map UdpSession) (key : String) (g : UdpSession) (n : ℕ)
    → ((f : UdpSession) → lookup m key ≡ some f → g.socket ≡ f.socket)
    → Owned m n
    → Owned (insert m key g) n
Owned-insert m key g n same (k, f, h, s) = elim (Bool-cases (str_eq key k)) [
  | inl t ↦
      let e : key ≡ k = (eq_iff key k).0 t in
      (
        k,
        g,
        lookup-insert m key k g ∙ then_branch (str_eq key k) _ _ t,
        same f (ap (lookup m) e ∙ h) ∙ s,
      )
  | inr d ↦ (k, f, lookup-insert m key k g ∙ else_branch (str_eq key k) _ _ d ∙ h, s)
]

pub lookup-has_socket :
    (p : UdpSession → Bool) (m : Map UdpSession) (key : String) (f : UdpSession)
    → lookup m key ≡ some f
    → p f ≡ true
    → has_socket p m f.socket ≡ true
unfolding lookup
lookup-has_socket p [] key f h t = ground (arith, h)
lookup-has_socket p ((k, g) ∷ m) key f h t = elim (Bool-cases (str_eq k key)) [
  | inl e ↦
      let same : g ≡ f = ground (arith, h, e) in
      subst (λ x. (p g && x.socket == g.socket || has_socket p m x.socket) ≡ true) same
        (ground (arith, ap p same ∙ t))
  | inr d ↦ ground (arith, lookup-has_socket p m key f (ground (arith, h, d)) t)
]

pub lookup-select_active :
    (p : UdpSession → Bool) (m : Map UdpSession) (key : String) (f : UdpSession)
    → lookup m key ≡ some f
    → p f ≡ true
    → lookup (select (λ x. p x.1) m) key ≡ some f
unfolding lookup
lookup-select_active p [] key f h t = ground (arith, h)
lookup-select_active p ((k, g) ∷ m) key f h t = ground (arith, h, t, lookup-select_active p m key f)
