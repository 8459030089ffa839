-- ===== src/Tools/Reach.antt =====
-- src/openmuse/tools.py: what FetchURL connects to.
use openmuse.Common.{
  raise_if-passed, Dict, inl, inr, ℕ, String, Text, ◌≡◌, subst, true, false, not, ◌||◌, Option,
  none, some, List, [], ◌∷◌, arith, eqb, if◌then◌else◌, any, Outcome, Outcome-cases, ok, err,
  >>=-eq-ok, ok-injective,
}
use openmuse.Tools.Fetch.{
  Network, Target, is_web_port, port_of, name_of, is_os_error, checked_url, public_addresses,
  on_response, fetch_pinned, pinned, headers, Connection, try_all, fetch_from, fetch_url,
}

abbrev pub IsWebPort : ℕ → Type 0
IsWebPort port = (eqb port 80 || eqb port 443) ≡ true

port_of-web :
    (p : Option ℕ) (scheme : String)
    → not (is_web_port p) ≡ false
    → (eqb (port_of p scheme) 80 || eqb (port_of p scheme) 443) ≡ true
port_of-web none scheme h = ground arith
port_of-web (some p) scheme h = ground arith

module _ {N : Type 0} (net : Network N) where
  checked_url-IsWebPort :
      (url : String) (t : Target) → checked_url net url ≡ ok t → IsWebPort t.port
  unfolding checked_url
  checked_url-IsWebPort url t h =
      let (parsed, split, h) = >>=-eq-ok (net.urlsplit url) _ h in
      let (whole, h) = raise_if-passed _ _ _ h in
      let (port, found, h) = >>=-eq-ok parsed.port _ h in
      let (web, h) = raise_if-passed _ _ _ h in
      let (host, named, h) = >>=-eq-ok (net.idna (name_of parsed.hostname)) _ h in
      subst (λ t. IsWebPort t.port) (ok-injective h) (port_of-web port parsed.scheme web)

  pub public-global :
      (o : Outcome (List String)) (l : List String)
      → public_addresses net o ≡ ok l
      → (o ≡ ok l) × (any (λ a. not (net.is_global a)) l ≡ false)
  public-global (err e) l h = absurd (cc)
  public-global (ok found) l h = ground (arith, ok-injective {a = found} {b = l})

  -- `P` holds of a world, and is kept by the resolver and by one request to a global address.
  module _ (P : N → Type 0)
      (resolved : (host : String) (port : ℕ) (n : N) → P n → P (net.getaddrinfo host port n).1)
      (requested : (c : Connection) (target : Text) (h : Dict String) (n : N)
        → net.is_global c.address ≡ true
        → IsWebPort c.port
        → P n
        → P (net.exchange c target h n).1) where
    on_response-kept :
        (o : Outcome (ℕ × Text)) (n : N) (rest : Outcome Text × N)
        → P n
        → P rest.1
        → P (on_response net o n rest).1
    on_response-kept (ok r) n rest p q = p
    on_response-kept (err e) n rest p q =
        elim (is_os_error e) as (λ c. P (if c then rest else (err e, n)).1) [ true ↦ q | false ↦ p ]

    try_all-kept :
        (t : Target) (l : List String) (n : N)
        → IsWebPort t.port
        → any (λ a. not (net.is_global a)) l ≡ false
        → P n
        → P (try_all net t l n).1
    unfolding try_all
    try_all-kept t [] n web global p = p
    try_all-kept t (a ∷ l) n web global p =
        let p' =
          requested (pinned t.scheme t.host t.port a) t.target (headers t.host) n (ground arith) web
            p in
        on_response-kept (fetch_pinned net t.scheme t.host t.port a t.target n).0 _
          (try_all net t l (fetch_pinned net t.scheme t.host t.port a t.target n).1) p'
          (try_all-kept t l _ web (ground arith) p')

    fetch_from-kept :
        (t : Target) (o : Outcome (List String)) (n : N)
        → IsWebPort t.port
        → P n
        → P (fetch_from net t (public_addresses net o) n).1
    fetch_from-kept t o n web p = elim (Outcome-cases (public_addresses net o)) [
      | inl (l, found) ↦ rw found (try_all-kept t l n web (public-global o l found).1 p)
      | inr (e, failed) ↦ rw failed p
    ]

    -- Whatever the URL, a property of the world is kept by FetchURL when the resolver keeps it and one
    -- request to port 80 or 443 of a global address keeps it.
    pub fetch_url-kept : (url : String) (n : N) → P n → P (fetch_url net url n).1
    unfolding fetch_url
    fetch_url-kept url n p = elim (Outcome-cases (checked_url net url)) [
      | inl (t, found) ↦
          rw found
            (fetch_from-kept t _ _ (checked_url-IsWebPort url t found) (resolved t.host t.port n p))
      | inr (e, failed) ↦ rw failed p
    ]
