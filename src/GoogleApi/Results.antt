-- ===== src/GoogleApi/Results.antt =====
-- The results of the two connectors' calls, and their revocation (google_mail_connector.py,
-- google_calendar_connector.py, connectors.py).
use openmuse.Common.{
  ℕ, ◌≤◌, String, ◌≡◌, ◌⊎◌, inl, inr, refl, true, false, not, ◌||◌, ◌&&◌, List, ◌==◌, arith, ℤ, pos,
  Outcome, ok, err, value_error, scope_denied, Bool-cases, Outcome-cases, Option-cases,
}
use openmuse.Common.Json.{Json, Fields, get}
use openmuse.Connectors.{Capability, Connector, ScopeGrants, run_capability, revoke_and_delete}
use openmuse.Connectors.Scopes.{allows-revoke_and_delete}
use openmuse.GoogleApi.{Params, Resource, Api, Credentials, delete_cached_data, maximum_of}
use openmuse.GoogleApi.Mail.{
  message_of, messages_of, is_query, labels_of, list_params, message_id_of, get_message,
  list_messages, missing_token, is_str, is_obj,
}
use openmuse.GoogleApi.Mail
use openmuse.GoogleApi.Calendar.{events_of, search_params, list_events}
use openmuse.GoogleApi.Calendar
use openmuse.GoogleApi.Bounds.{
  Answered, on_answer-ok, maximum_of-bounds, Listed, events_of-ok, messages_of-ok,
}

module _ {N : Type 0} (api : Api N) where
  params-bounds :
      (capability : String) (arguments : Fields) (n : ℤ) (params : Params)
      → Calendar.list_params api capability arguments ≡ ok (n, params)
      → (k : ℕ) × (n ≡ pos k) × (1 ≤ k) × (k ≤ 250)
  unfolding Calendar.list_params
  params-bounds capability arguments n params h = elim (Outcome-cases (maximum_of api arguments)) [
    | inr (e, f) ↦ absurd (ground (arith, f, h))
    | inl (m, f) ↦ elim (Outcome-cases (search_params api capability (get "query" arguments))) [
      | inr (e, g) ↦ absurd (ground (arith, f, g, h))
      | inl (q, g) ↦ maximum_of-bounds api arguments n (ground (arith, f, g, h))
    ]
  ]

  list_events-Listed :
      (o : Outcome (ℤ × Params)) (n : N) (out : String)
      → ((m : ℤ) (params : Params)
          → o ≡ ok (m, params)
          → (k : ℕ) × (m ≡ pos k) × (1 ≤ k) × (k ≤ 250))
      → (list_events api o n).0 ≡ ok out
      → Listed api n (list_events api o n).1 "items" out
  list_events-Listed (err e) n out b h = absurd (cc)
  list_events-Listed (ok (m, params)) n out b h =
      let (k, is_k, low, high) = b m params refl in
      let (payload, answered, made) =
        on_answer-ok api (Resource.collection params)
          (value_error "calendar access token unavailable") n (events_of api m) out h in
      let (xs, held, few, result) = events_of-ok api k payload out (rw is_k at made) in
      record {
        maximum = k;
        bounds = (low, high);
        params = params;
        payload = payload;
        answered = answered;
        items = xs;
        held = held;
        few = few;
        result = result;
      }

  -- A result of the calendar was asked for under a token, with a bound from 1 to 250 that it keeps, by
  -- a connector that is not revoked.
  pub calendar-Listed :
      (c : Credentials) (capability : String) (arguments : Fields) (n : N) (out : String)
      → (Calendar.invoke api c capability arguments n).0 ≡ ok out
      → (c.revoked ≡ false)
        × Listed api n (Calendar.invoke api c capability arguments n).1 "items" out
  unfolding Calendar.invoke
  calendar-Listed c capability arguments n out h = elim (Bool-cases c.revoked) [
    | inl revoked ↦ absurd (ground (arith, revoked, h))
    | inr live ↦
        elim (Bool-cases (not (capability == "list_events" || capability == "search_events"))) [
          | inl unknown ↦ absurd (ground (arith, live, unknown, h))
          | inr known ↦
              let o = Calendar.list_params api capability arguments in
              (
                live,
                rw (live, known, Calendar.invoke)
                    (list_events-Listed o n out
                      (λ m params e. params-bounds capability arguments m params e)
                      (rw (live, known, Calendar.invoke) at h)),
              )
        ]
  ]

  mail_params-bounds :
      (capability : String) (arguments : Fields) (n : ℤ) (params : Params)
      → Mail.list_params api capability arguments ≡ ok (n, params)
      → (k : ℕ) × (n ≡ pos k) × (1 ≤ k) × (k ≤ 250)
  unfolding Mail.list_params
  mail_params-bounds capability arguments n params h =
      elim (Outcome-cases (maximum_of api arguments)) [
        | inr (e, f) ↦ absurd (ground (arith, f, h))
        | inl (m, f) ↦
            elim (Bool-cases
              (capability == "search_messages" && not (is_query api (get "query" arguments)))) [
                | inl bare ↦ absurd (ground (arith, f, bare, h))
                | inr asks ↦ elim (Option-cases (labels_of (get "label_ids" arguments))) [
                  | inl bad ↦ absurd (ground (arith, f, asks, bad, h))
                  | inr (labels, g) ↦
                      maximum_of-bounds api arguments n (ground (arith, f, asks, g, h))
                ]
              ]
      ]

  list_messages-Listed :
      (o : Outcome (ℤ × Params)) (n : N) (out : String)
      → ((m : ℤ) (params : Params)
          → o ≡ ok (m, params)
          → (k : ℕ) × (m ≡ pos k) × (1 ≤ k) × (k ≤ 250))
      → (list_messages api o n).0 ≡ ok out
      → Listed api n (list_messages api o n).1 "messages" out
  list_messages-Listed (err e) n out b h = absurd (cc)
  list_messages-Listed (ok (m, params)) n out b h =
      let (k, is_k, low, high) = b m params refl in
      let (payload, answered, made) =
        on_answer-ok api (Resource.collection params) (missing_token api) n (messages_of api m) out
          h in
      let (xs, held, few, result) = messages_of-ok api k payload out (rw is_k at made) in
      record {
        maximum = k;
        bounds = (low, high);
        params = params;
        payload = payload;
        answered = answered;
        items = xs;
        held = held;
        few = few;
        result = result;
      }

  -- One message was asked for by its identifier, and the answer has the shape of a message.
  pub record Fetched (n n' : N) (out : String) : Type 0 where
    pub id : String
    pub payload : Fields
    pub answered : Answered api (Resource.single id) n n' payload
    pub shaped : (is_str (get "id" payload) && is_obj (get "payload" payload)) ≡ true
    pub result : out ≡ api.dumps (Json.obj payload)

  get_message-Fetched :
      (o : Outcome String) (n : N) (out : String)
      → (get_message api o n).0 ≡ ok out
      → Fetched n (get_message api o n).1 out
  unfolding message_of
  get_message-Fetched (err e) n out h = absurd (cc)
  get_message-Fetched (ok id) n out h =
      let (payload, answered, made) =
        on_answer-ok api (Resource.single id) (missing_token api) n (message_of api) out h in
      elim (Bool-cases (is_str (get "id" payload) && is_obj (get "payload" payload))) [
        | inr odd ↦ absurd (ground (arith, odd, made))
        | inl shaped ↦ record {
          id = id;
          payload = payload;
          answered = answered;
          shaped = shaped;
          result = ground (arith, shaped, made);
        }
      ]

  -- A result of the mail connector is one message of the right shape, or a listing within the bound
  -- that was asked for, 250 at most; each under a token, and by a connector that is not revoked.
  pub mail-Listed :
      (c : Credentials) (capability : String) (arguments : Fields) (n : N) (out : String)
      → (Mail.invoke api c capability arguments n).0 ≡ ok out
      → (c.revoked ≡ false)
        × (Fetched n (Mail.invoke api c capability arguments n).1 out
            ⊎ Listed api n (Mail.invoke api c capability arguments n).1 "messages" out)
  unfolding Mail.invoke
  mail-Listed c capability arguments n out h = elim (Bool-cases c.revoked) [
    | inl revoked ↦ absurd (ground (arith, revoked, h))
    | inr live ↦ elim (Bool-cases (capability == "get_message")) [
      | inl one ↦ (
        live,
        inl (
            rw (live, one, Mail.invoke)
              (get_message-Fetched (message_id_of api arguments) n out
                (rw (live, one, Mail.invoke) at h))),
      )
      | inr many ↦
          elim (Bool-cases
            (not (capability == "list_messages" || capability == "search_messages"))) [
              | inl unknown ↦ absurd (ground (arith, live, many, unknown, h))
              | inr known ↦
                  let o = Mail.list_params api capability arguments in
                  (
                    live,
                    inr (
                        rw (live, many, known, Mail.invoke)
                          (list_messages-Listed o n out
                            (λ m params e. mail_params-bounds capability arguments m params e)
                            (rw (live, many, known, Mail.invoke) at h))),
                  )
            ]
    ]
  ]

  -- The calendar as a connector of the host: its world is its credentials and the network.
  abbrev pub calendar : List Capability → Connector (Credentials × N)
  calendar declared = record {
    name = "google_calendar";
    capabilities = ok declared;
    invoke = λ capability arguments w. (
      (Calendar.invoke api w.0 capability arguments w.1).0,
      (w.0, (Calendar.invoke api w.0 capability arguments w.1).1),
    );
    delete_cached_data = λ w. (ok tt, (delete_cached_data w.0, w.1));
  }

  -- Once the host has revoked the calendar and had it delete its data, neither the tool of a capability
  -- nor a direct call reaches the network, whatever the capability, its arguments and the time.
  pub calendar-revoked :
      (declared : List Capability) (grants : ScopeGrants) (w : Credentials × N)
      (capability : Capability) (arguments : Fields) (now : ℕ)
      → let after = (revoke_and_delete grants (calendar declared) w).1 in
        (run_capability after.0 (calendar declared) capability arguments now after.1
          ≡ (err (scope_denied "scope not granted"), after.1))
        × ((calendar declared).invoke capability.name arguments after.1
            ≡ (err (value_error "connector credentials revoked"), after.1))
        × (after.1.1 ≡ w.1)
  unfolding run_capability delete_cached_data Calendar.invoke revoke_and_delete
  calendar-revoked declared grants w capability arguments now = (
    ground (
      arith,
      allows-revoke_and_delete grants (calendar declared) w "google_calendar" capability.scope now,
    ),
    refl,
    refl,
  )
