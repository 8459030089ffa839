-- ===== src/HostEvents/Once.antt =====
-- How often a signed event is accepted (host_events.py).
use openmuse.Common.{
  ℕ, ◌+◌, ◌≤◌, ◌<◌, String, Text, ◌≡◌, ◌≢◌, refl, true, none, some, List, [], ◌∷◌, ◌==◌, eq_iff,
  eq_refl, if◌then◌else◌, arith, lookup, contains, Outcome, ok, err, value_error, Bool-cases,
  Outcome-cases, inl, inr, ◌⊎◌,
}
use openmuse.Common.Json.{Fields}
use openmuse.Runtime.{Runtime}
use openmuse.Approvals.{compare_digest}
use openmuse.HostEvents.{
  Seen, purge, consume, HostEventVerifier, distance, sign, check_event, verify,
}

lookup-purge :
    (id : String) (e now : ℕ) (seen : Seen)
    → lookup id seen ≡ some e
    → e < now ⊎ (lookup id (purge now seen) ≡ some e)
unfolding lookup purge
lookup-purge id e now [] h = absurd (cc)
lookup-purge id e now ((j, x) ∷ seen) h = ground (arith, lookup-purge id e now seen, eq_iff j id)

purge-none :
    (id : String) (now : ℕ) (seen : Seen)
    → lookup id seen ≡ none
    → lookup id (purge now seen) ≡ none
unfolding lookup purge
purge-none id now [] h = refl
purge-none id now ((j, x) ∷ seen) h = ground (arith, purge-none id now seen)

-- An event that is on record and not past its expiry is refused, and stays on record whatever the
-- store is asked.
consume_seen :
    (seen : Seen) (id : String) (e e' now : ℕ)
    → lookup id seen ≡ some e
    → now ≤ e
    → consume seen id e' now ≡ (err (value_error "replayed host event"), seen)
unfolding consume
consume_seen seen id e e' now h fresh = ground (arith, lookup-purge id e now seen h)

consume-keeps :
    (seen : Seen) (id other : String) (e e' now : ℕ)
    → lookup id seen ≡ some e
    → now ≤ e
    → lookup id (consume seen other e' now).1 ≡ some e
unfolding consume
consume-keeps seen id other e e' now h fresh = elim (lookup-purge id e now seen h) [
  | inl past ↦ absurd (omega arith)
  | inr kept ↦ elim (Bool-cases (contains other (purge now seen))) [
    | inl replay ↦ ground (arith, replay, h)
    | inr new ↦ ground (arith, new, kept, lookup-head other id e' (purge now seen), eq_iff other id)
  ]
]
  where
    lookup-head :
        (k j : String) (v : ℕ) (d : Seen)
        → lookup j ((k, v) ∷ d) ≡ (if k == j then some v else lookup j d)
    lookup-head k j v d = unfold lookup in refl

-- A call of `verify`, with the two readings of the clock.
pub record Call : Type 0 where
  pub event_id : String
  pub timestamp : ℕ
  pub payload : Fields
  pub signature : Text
  pub now : ℕ
  pub store_now : ℕ

module _ (r : Runtime) (v : HostEventVerifier) where
  abbrev pub call : Seen → Call → Outcome (Unit {0}) × Seen
  call seen c = verify r v seen c.event_id c.timestamp c.payload c.signature c.now c.store_now

  unfoldable pub calls : Seen → List Call → Seen
  calls seen [] = seen
  calls seen (c ∷ cs) = calls (call seen c).1 cs

  -- Every reading of the store's clock is at most `t`.
  abbrev pub Until : ℕ → List Call → Type 0
  Until t [] = Unit
  Until t (c ∷ cs) = (c.store_now ≤ t) × Until t cs

  call-keeps :
      (seen : Seen) (c : Call) (id : String) (e : ℕ)
      → lookup id seen ≡ some e
      → c.store_now ≤ e
      → lookup id (call seen c).1 ≡ some e
  unfolding verify
  call-keeps seen c id e h early =
      elim (Outcome-cases (check_event r v c.event_id c.timestamp c.payload c.signature c.now)) [
        | inl (u, f) ↦ ground (
          arith,
          f,
          consume-keeps seen id c.event_id e (c.timestamp + v.maximum_age_seconds) c.store_now h
              early,
        )
        | inr (x, f) ↦ ground (arith, f, h)
      ]

  calls-keeps :
      (cs : List Call) (seen : Seen) (id : String) (e : ℕ)
      → lookup id seen ≡ some e
      → Until e cs
      → lookup id (calls seen cs) ≡ some e
  unfolding calls
  calls-keeps [] seen id e h u = h
  calls-keeps (c ∷ cs) seen id e h u =
      calls-keeps cs (call seen c).1 id e (call-keeps seen c id e h u.0) u.1

  -- What a successful verification has checked and recorded.
  pub verify-accepted :
      (seen : Seen) (c : Call)
      → (call seen c).0 ≡ ok tt
      → (distance c.now c.timestamp ≤ v.maximum_age_seconds)
        × (compare_digest (sign r v c.event_id c.timestamp c.payload) c.signature ≡ ok true)
        × (lookup c.event_id (call seen c).1 ≡ some (c.timestamp + v.maximum_age_seconds))
  unfolding verify check_event consume lookup
  verify-accepted seen c h =
      elim (Outcome-cases
        (compare_digest (sign r v c.event_id c.timestamp c.payload) c.signature)) [
          | inr (x, e) ↦ absurd (ground (arith, h, e))
          | inl (b, e) ↦
              (ground (arith, h, e), ground (arith, h, e), ground (arith, h, e, eq_refl c.event_id))
        ]

  -- Once an event was accepted, no call for its id is accepted while the store's clock has not
  -- passed its expiry, whatever calls come between.
  pub verify_once :
      (seen : Seen) (first : Call) (cs : List Call) (again : Call)
      → (call seen first).0 ≡ ok tt
      → again.event_id ≡ first.event_id
      → Until (first.timestamp + v.maximum_age_seconds) cs
      → again.store_now ≤ first.timestamp + v.maximum_age_seconds
      → (call (calls (call seen first).1 cs) again).0 ≢ ok tt
  unfolding verify
  verify_once seen first cs again h same u early repeated =
      let e : ℕ = first.timestamp + v.maximum_age_seconds in
      let kept =
        calls-keeps cs (call seen first).1 first.event_id e (verify-accepted seen first h).2 u in
      elim (Outcome-cases
        (check_event r v again.event_id again.timestamp again.payload again.signature again.now)) [
          | inr (x, f) ↦ ground (arith, f, repeated)
          | inl (t, f) ↦ ground (
            arith,
            f,
            repeated,
            same,
            consume_seen (calls (call seen first).1 cs) first.event_id e
                (again.timestamp + v.maximum_age_seconds) again.store_now kept early,
          )
        ]

  -- At the last second of an event's life a tick between the two readings of the clock lets it
  -- through once more: it is not stale by the first reading, and forgotten by the second.
  pub verify_tick :
      (seen : Seen) (first : Call)
      → (call seen first).0 ≡ ok tt
      → lookup first.event_id seen ≡ none
      → let last = first.timestamp + v.maximum_age_seconds in
        (call (call seen first).1 (record first { now = last; store_now = last + 1 })).0 ≡ ok tt
  unfolding verify check_event consume purge
  verify_tick seen first h fresh =
      let e : ℕ = first.timestamp + v.maximum_age_seconds in
      let (near, signed, _) = verify-accepted seen first h in
      let gone = purge-none first.event_id first.store_now seen fresh in
      ground (
        arith,
        h,
        signed,
        gone,
        purge-none first.event_id (e + 1) (purge first.store_now seen) gone,
      )
