-- ===== src/GoogleApi/Bounds.antt =====
-- What a result of the two connectors rests on (google_mail_connector.py, google_calendar_connector.py).
use openmuse.Common.{
  ℕ, ◌≤◌, String, ◌≡◌, ◌⊎◌, inl, inr, refl, false, Option, none, some, ◌==◌, arith, ℤ, pos, negsuc,
  Outcome, ok, err, Exception, Bool-cases, Outcome-cases,
}
use openmuse.Common.Json.{Json, Items, nil, Fields, get}
use openmuse.GoogleApi.{
  Params, Resource, Api, length_items, all_objects, items_at, int_of, maximum_of, sent, request,
  on_answer,
}
use openmuse.GoogleApi.Mail.{messages_of}
use openmuse.GoogleApi.Calendar.{events_of}

module _ {N : Type 0} (api : Api N) where
  -- A call of the service that was answered: the token was there.
  pub record Answered (r : Resource) (n n' : N) (payload : Fields) : Type 0 where
    pub token : String
    pub issued : (api.access_token n).0 ≡ ok token
    pub present : (token == "") ≡ false
    pub answer : api.transport r token (api.access_token n).1 ≡ (ok payload, n')

  sent-ok :
      (r : Resource) (missing : Exception) (o : Outcome String × N) (payload : Fields)
      → (sent api r missing o).0 ≡ ok payload
      → (token : String) × (o.0 ≡ ok token)
        × ((token == "") ≡ false)
        × (api.transport r token o.1 ≡ (ok payload, (sent api r missing o).1))
  sent-ok r missing (err e, n) payload h = absurd (cc)
  sent-ok r missing (ok token, n) payload h = elim (Bool-cases (token == "")) [
    | inl empty ↦ absurd (ground (arith, empty, h))
    | inr full ↦
        let is_sent : sent api r missing (ok token, n) ≡ api.transport r token n = rw full refl in
        (token, refl, full, cc (is_sent, h))
  ]

  pub on_answer-ok :
      (r : Resource) (missing : Exception) (n : N) (f : Fields → Outcome String) (out : String)
      → (on_answer api (request api r missing n) f).0 ≡ ok out
      → (payload : Fields) × Answered r n (on_answer api (request api r missing n) f).1 payload
        × (f payload ≡ ok out)
  unfolding request
  on_answer-ok r missing n f out h = go (sent api r missing (api.access_token n)) refl h
    where
      go :
          (o : Outcome Fields × N)
          → sent api r missing (api.access_token n) ≡ o
          → (on_answer api o f).0 ≡ ok out
          → (payload : Fields) × Answered r n (on_answer api o f).1 payload × (f payload ≡ ok out)
      go (err e, n') is_o h' = absurd (cc)
      go (ok payload, n') is_o h' =
          let (token, issued, present, answer) =
            sent-ok r missing (api.access_token n) payload (cc (is_o)) in
          (
            payload,
            record {
              token = token;
              issued = issued;
              present = present;
              answer = cc (answer, is_o);
            },
            h',
          )

  pub maximum_of-bounds :
      (arguments : Fields) (n : ℤ)
      → maximum_of api arguments ≡ ok n
      → (k : ℕ) × (n ≡ pos k) × (1 ≤ k) × (k ≤ 250)
  unfolding maximum_of
  maximum_of-bounds arguments n h =
      elim (Outcome-cases (int_of api (get "max_results" arguments))) [
        | inr (e, f) ↦ absurd (ground (arith, f, h))
        | inl (m, f) ↦ by_sign m f
      ]
    where
      by_sign :
          (m : ℤ)
          → int_of api (get "max_results" arguments) ≡ ok m
          → (k : ℕ) × (n ≡ pos k) × (1 ≤ k) × (k ≤ 250)
      by_sign (negsuc j) f = absurd (ground (arith, f, h))
      by_sign (pos k) f = (k, ground (arith, f, h), ground (arith, f, h), ground (arith, f, h))

  -- A result of a listing: the service answered a request for at most `maximum` items, a number from 1
  -- to 250, the answer has no more, and they are the result.
  pub record Listed (n n' : N) (key out : String) : Type 0 where
    pub maximum : ℕ
    pub bounds : (1 ≤ maximum) × (maximum ≤ 250)
    pub params : Params
    pub payload : Fields
    pub answered : Answered (Resource.collection params) n n' payload
    pub items : Items
    pub held :
        (get key payload ≡ some (Json.arr items)) ⊎ ((get key payload ≡ none) × (items ≡ nil))
    pub few : length_items items ≤ maximum
    pub result : out ≡ api.dumps (Json.arr items)

  items_at-ok :
      (j : Option Json) (e : Exception) (xs : Items)
      → items_at j e ≡ ok xs
      → (j ≡ some (Json.arr xs)) ⊎ ((j ≡ none) × (xs ≡ nil))
  items_at-ok none e xs h = inr (refl, ground (arith, h))
  items_at-ok (some (Json.arr ys)) e xs h = inl (ground (arith, h))
  items_at-ok (some _) e xs h = absurd (cc)

  pub events_of-ok :
      (k : ℕ) (payload : Fields) (out : String)
      → events_of api (pos k) payload ≡ ok out
      → (xs : Items) × ((get "items" payload ≡ some (Json.arr xs))
          ⊎ ((get "items" payload ≡ none) × (xs ≡ nil)))
        × (length_items xs ≤ k)
        × (out ≡ api.dumps (Json.arr xs))
  unfolding events_of
  events_of-ok k payload out h =
      let e = Exception.type_error "calendar items must be an array" in
      elim (Outcome-cases (items_at (get "items" payload) e)) [
        | inr (x, f) ↦ absurd (ground (arith, f, h))
        | inl (xs, f) ↦ (
          xs,
          items_at-ok (get "items" payload) e xs f,
          ground (arith, f, h),
          ground (arith, f, h),
        )
      ]

  pub messages_of-ok :
      (k : ℕ) (payload : Fields) (out : String)
      → messages_of api (pos k) payload ≡ ok out
      → (xs : Items) × ((get "messages" payload ≡ some (Json.arr xs))
          ⊎ ((get "messages" payload ≡ none) × (xs ≡ nil)))
        × (length_items xs ≤ k)
        × (out ≡ api.dumps (Json.arr xs))
  unfolding messages_of
  messages_of-ok k payload out h =
      let e = Exception.type_error "Gmail messages must be an array of objects" in
      elim (Outcome-cases (items_at (get "messages" payload) e)) [
        | inr (x, f) ↦ absurd (ground (arith, f, h))
        | inl (xs, f) ↦ elim (Bool-cases (all_objects xs)) [
          | inr mixed ↦ absurd (ground (arith, f, mixed, h))
          | inl objects ↦ (
            xs,
            items_at-ok (get "messages" payload) e xs f,
            ground (arith, f, objects, h),
            ground (arith, f, objects, h),
          )
        ]
      ]
