-- ===== src/Tools/Replies.antt =====
-- src/openmuse/tools.py: what FetchURL returns, and what it returns it from.
use openmuse.Common.{
  err_not_ok, ℕ, ◌≤◌, ◌<◌, String, Text, ◌≡◌, ap, ◌∙◌, sym, refl, Bool, true, false, not, ◌&&◌,
  List, [], ◌∷◌, arith, ◌==◌, eq_iff, if◌then◌else◌, any, take, take-take, mem, inl, inr, ◌⊎◌,
  Outcome, Outcome-cases, ok, err, value_error, ◌>>=◌, >>=-eq-ok, ok-injective,
}
use openmuse.Tools.Fetch.{
  Network, Target, drop_all, distinct, is_os_error, checked_url, public_addresses, body_of,
  on_response, fetch_pinned, pinned, headers, try_all, fetch_from, fetch_target, fetch_url,
}
use openmuse.Tools.Reach.{public-global}

mem-drop_all : (b a : String) (l : List String) → mem b (drop_all a l) ≡ (mem b l && not (a == b))
unfolding drop_all
mem-drop_all b a [] = refl
mem-drop_all b a (c ∷ l) = ground (arith, eq_iff a c, eq_iff c b, eq_iff a b, mem-drop_all b a l)

-- The addresses are the resolver's, each once.
mem-distinct : (b : String) (l : List String) → mem b (distinct l) ≡ mem b l
unfolding distinct
mem-distinct b [] = refl
mem-distinct b (a ∷ l) = ground (arith, eq_iff a b, mem-drop_all b a (distinct l), mem-distinct b l)

mem-any :
    (p : String → Bool) (a : String) (l : List String)
    → mem a l ≡ true
    → p a ≡ true
    → any p l ≡ true
mem-any p a [] m h = absurd (cc)
mem-any p a (b ∷ l) m h = ground (arith, eq_iff b a, mem-any p a l)

any-drop_all :
    (p : String → Bool) (a : String) (l : List String)
    → p a ≡ false
    → any p (drop_all a l) ≡ any p l
unfolding drop_all
any-drop_all p a [] h = refl
any-drop_all p a (b ∷ l) h = ground (arith, eq_iff a b, any-drop_all p a l)

any-distinct : (p : String → Bool) (l : List String) → any p (distinct l) ≡ any p l
unfolding distinct
any-distinct p [] = refl
any-distinct p (a ∷ l) = ground (arith, any-drop_all p a (distinct l), any-distinct p l)

module _ {N : Type 0} (net : Network N) where
  -- `text` is what a global address of `found` answered to the request for `t`.
  abbrev pub IsAnswered : Target → List String → Text → Type 0
  IsAnswered t found text =
      (a : String) × (n : N) × (r : ℕ × Text) × (mem a found ≡ true)
      × (net.is_global a ≡ true)
      × ((net.exchange (pinned t.scheme t.host t.port a) t.target (headers t.host) n).0 ≡ ok r)
      × (200 ≤ r.0)
      × (r.0 < 300)
      × (text ≡ net.decode (take r.1 200000))

  body_of-ok :
      (r : ℕ × Text) (text : Text)
      → body_of net (r.0, take r.1 200001) ≡ ok text
      → (200 ≤ r.0) × (r.0 < 300) × (text ≡ net.decode (take r.1 200000))
  body_of-ok r text h = ground (
    arith,
    ok-injective {a = net.decode (take (take r.1 200001) 200000)} {b = text},
    ap net.decode (take-take r.1 200001 200000 (omega arith)),
  )

  on_response-ok :
      (o : Outcome (ℕ × Text)) (n : N) (rest : Outcome Text × N) (text : Text)
      → (on_response net o n rest).0 ≡ ok text
      → ((r : ℕ × Text) × (o ≡ ok r) × (body_of net r ≡ ok text)) ⊎ (rest.0 ≡ ok text)
  on_response-ok (ok r) n rest text h = inl (r, refl, h)
  on_response-ok (err e) n rest text h = inr (raised (is_os_error e) h)
    where
      raised : (c : Bool) → (if c then rest else (err e, n)).0 ≡ ok text → rest.0 ≡ ok text
      raised true h = h
      raised false h = absurd (cc)

  IsAnswered-mono :
      (t : Target) (l l' : List String) (text : Text)
      → ((b : String) → mem b l ≡ true → mem b l' ≡ true)
      → IsAnswered t l text
      → IsAnswered t l' text
  IsAnswered-mono t l l' text more (b, n, r, m, global, answered, low, high, body) =
      (b, n, r, more b m, global, answered, low, high, body)

  try_all-IsAnswered :
      (t : Target) (l : List String) (n : N) (text : Text)
      → any (λ a. not (net.is_global a)) l ≡ false
      → (try_all net t l n).0 ≡ ok text
      → IsAnswered t l text
  unfolding try_all
  try_all-IsAnswered t [] n text global h = absurd (cc)
  try_all-IsAnswered t (a ∷ l) n text global h =
      let rest = try_all net t l (fetch_pinned net t.scheme t.host t.port a t.target n).1 in
      elim (on_response-ok (fetch_pinned net t.scheme t.host t.port a t.target n).0 _ rest text h) [
        | inl (r, answered, body) ↦
            let (raw, answered, cut) =
              >>=-eq-ok
                (net.exchange (pinned t.scheme t.host t.port a) t.target (headers t.host) n).0 _
                answered in
            let (low, high, same) =
              body_of-ok raw text (ap (body_of net) (ok-injective cut) ∙ body) in
            (a, n, raw, ground (arith, eq_iff a a), ground arith, answered, low, high, same)
        | inr h ↦
            IsAnswered-mono t l (a ∷ l) text (λ b m. ground arith)
              (try_all-IsAnswered t l _ text (ground arith) h)
      ]

  fetch_from-IsAnswered :
      (t : Target) (found : List String) (n : N) (text : Text)
      → (fetch_from net t (public_addresses net (ok (distinct found))) n).0 ≡ ok text
      → (any (λ a. not (net.is_global a)) found ≡ false) × IsAnswered t found text
  fetch_from-IsAnswered t found n text h =
      elim (Outcome-cases (public_addresses net (ok (distinct found)))) [
        | inl (l, public) ↦
            let (same, global) = public-global net (ok (distinct found)) l public in
            let each = ok-injective same in
            (
              sym (any-distinct (λ a. not (net.is_global a)) found)
                  ∙ ap (any (λ a. not (net.is_global a))) each
                  ∙ global,
              IsAnswered-mono t l found text
                  (λ b m. sym (mem-distinct b found) ∙ ap (mem b) each ∙ m)
                  (try_all-IsAnswered t l n text global
                    (sym (ap (λ o. (fetch_from net t o n).0) public) ∙ h)),
            )
        | inr (e, failed) ↦
            absurd (err_not_ok (sym (ap (λ o. (fetch_from net t o n).0) failed) ∙ h))
      ]

  fetch_target-IsAnswered :
      (t : Target) (n : N) (text : Text)
      → (fetch_target net (ok t) n).0 ≡ ok text
      → (found : List String) × ((net.getaddrinfo t.host t.port n).0 ≡ ok found)
        × (any (λ a. not (net.is_global a)) found ≡ false)
        × IsAnswered t found text
  fetch_target-IsAnswered t n text h = elim (Outcome-cases (net.getaddrinfo t.host t.port n).0) [
    | inl (found, resolved) ↦
        let (global, answered) = fetch_from-IsAnswered t found _ text (
          sym (
            ap
              (λ o.
                (fetch_from net t (public_addresses net (o >>= λ l. ok (distinct l)))
                  (net.getaddrinfo t.host t.port n).1).0)
              resolved)
          ∙ h) in
        (found, resolved, global, answered)
    | inr (e, failed) ↦ absurd (
        err_not_ok (
          sym (
            ap
              (λ o.
                (fetch_from net t (public_addresses net (o >>= λ l. ok (distinct l)))
                  (net.getaddrinfo t.host t.port n).1).0)
              failed)
          ∙ h))
  ]

  -- A text that FetchURL returns is what at most the first 200000 bytes of a response decode to: a
  -- response with a status from 200 to 299, to the request for the target of the checked URL, by a
  -- global address among those that the host resolved to in the call's one lookup, which were all global.
  pub fetch_url-IsAnswered :
      (url : String) (n : N) (text : Text)
      → (fetch_url net url n).0 ≡ ok text
      → (t : Target) × (found : List String) × (checked_url net url ≡ ok t)
        × ((net.getaddrinfo t.host t.port n).0 ≡ ok found)
        × (any (λ a. not (net.is_global a)) found ≡ false)
        × IsAnswered t found text
  unfolding fetch_url
  fetch_url-IsAnswered url n text h = elim (Outcome-cases (checked_url net url)) [
    | inl (t, passed) ↦
        let (found, resolved, global, answered) =
          fetch_target-IsAnswered t n text (sym (ap (λ o. (fetch_target net o n).0) passed) ∙ h) in
        (t, found, passed, resolved, global, answered)
    | inr (e, failed) ↦ absurd (err_not_ok (sym (ap (λ o. (fetch_target net o n).0) failed) ∙ h))
  ]

  blocked :
      (l : List String)
      → any (λ b. not (net.is_global b)) l ≡ true
      → public_addresses net (ok l) ≡ err (value_error "private or special-use network blocked")
  blocked l h = ground arith

  -- One address that is not global blocks the whole call, before any request.
  pub fetch_url-blocked :
      (url : String) (n : N) (t : Target) (found : List String) (a : String)
      → checked_url net url ≡ ok t
      → (net.getaddrinfo t.host t.port n).0 ≡ ok found
      → mem a found ≡ true
      → net.is_global a ≡ false
      → fetch_url net url n ≡ (
        err (value_error "private or special-use network blocked"),
        (net.getaddrinfo t.host t.port n).1,
      )
  unfolding fetch_url
  fetch_url-blocked url n t found a passed resolved m private =
      let n' = (net.getaddrinfo t.host t.port n).1 in
      ap (λ c. fetch_target net c n) passed
      ∙ ap (λ o. fetch_from net t (public_addresses net (o >>= λ l. ok (distinct l))) n') resolved
      ∙ ap (λ o. fetch_from net t o n')
          (blocked (distinct found) (
            any-distinct (λ b. not (net.is_global b)) found
            ∙ mem-any (λ b. not (net.is_global b)) a found m (ground arith)))
