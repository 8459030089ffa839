-- ===== src/GoogleApi/Mail.antt =====
-- src/openmuse/google_mail_connector.py: GoogleMailConnector.invoke.
use openmuse.Common.{
  String, codes, Bool, true, false, not, ◌&&◌, ◌||◌, Option, none, some, List, [], ◌∷◌, ◌++◌, ◌==◌,
  eqb, if◌then◌else◌, any, ℤ, Outcome, ok, err, Exception, value_error, type_error, key_error,
  ◌>>=◌, ◌>>◌, raise_if, or_raise,
}
use openmuse.Common.Json.{Json, Items, nil, item, Fields, get}
use openmuse.Policy.{Risk}
use openmuse.Connectors.{Capability}
use openmuse.GoogleApi.{
  Params, Resource, Api, Credentials, all_objects, items_at, maximum_of, shown, request, on_answer,
  exceeds,
}

unfoldable pub read_capabilities : Fields → Fields → Fields → List Capability
read_capabilities list_schema search_schema get_schema =
    record { name = "list_messages"; scope = "mail.read"; risk = Risk.read; schema = list_schema }
    ∷ record {
      name = "search_messages";
      scope = "mail.read";
      risk = Risk.read;
      schema = search_schema;
    }
    ∷ record { name = "get_message"; scope = "mail.read"; risk = Risk.read; schema = get_schema }
    ∷ []

abbrev pub is_str : Option Json → Bool
is_str (some (Json.str s)) = true
is_str _ = false

abbrev pub is_obj : Option Json → Bool
is_obj (some (Json.obj fs)) = true
is_obj _ = false

-- The labels, each a text that is not empty, as parameters.
unfoldable pub label_params : Items → Option Params
label_params nil = some []
label_params (item (Json.str s) xs) =
    if s == ""
    then none
    else elim (label_params xs) [ none ↦ none | some ps ↦ some (("labelIds", s) ∷ ps) ]
label_params (item _ xs) = none

-- `arguments.get("label_ids", [])`
abbrev pub labels_of : Option Json → Option Params
labels_of none = some []
labels_of (some (Json.arr xs)) = label_params xs
labels_of (some v) = none

module _ {N : Type 0} (api : Api N) where
  unfoldable pub message_of : Fields → Outcome String
  message_of payload =
      if is_str (get "id" payload) && is_obj (get "payload" payload)
      then ok (api.dumps (Json.obj payload))
      else err (type_error "Gmail message response has invalid shape")

  unfoldable pub messages_of : ℤ → Fields → Outcome String
  messages_of maximum payload = do
    messages ←
        items_at (get "messages" payload) (type_error "Gmail messages must be an array of objects")
    raise_if (not (all_objects messages)) (type_error "Gmail messages must be an array of objects")
    raise_if (exceeds messages maximum)
        (value_error "Gmail response exceeded requested result bound")
    ok (api.dumps (Json.arr messages))

  -- Whether a search has what it searches for.
  abbrev pub is_query : Option Json → Bool
  is_query (some (Json.str s)) = not (api.is_blank_text s)
  is_query _ = false

  abbrev pub query_params : Option Json → Params
  query_params none = []
  query_params (some Json.null) = []
  query_params (some v) = ("q", shown api v) ∷ []

  unfoldable pub list_params : String → Fields → Outcome (ℤ × Params)
  list_params capability arguments = do
    maximum ← maximum_of api arguments
    raise_if (capability == "search_messages" && not (is_query (get "query" arguments)))
        (value_error "search query is required")
    labels ←
        or_raise (labels_of (get "label_ids" arguments))
          (value_error "label_ids must be an array of strings")
    ok (
      maximum,
      ("maxResults", shown api (Json.num maximum))
          ∷ ("includeSpamTrash", "false")
          ∷ (query_params (get "query" arguments) ++ labels),
    )

  abbrev pub missing_token : Exception
  missing_token = value_error "mail access token unavailable"

  abbrev pub get_message : Outcome String → N → Outcome String × N
  get_message (err e) n = (err e, n)
  get_message (ok id) n =
      on_answer api (request api (Resource.single id) missing_token n) message_of

  -- `str(arguments["message_id"])`, where it names one message
  unfoldable pub message_id_of : Fields → Outcome String
  message_id_of arguments = do
    v ← or_raise (get "message_id" arguments) (key_error "message_id")
    raise_if (shown api v == "" || any (λ c. eqb c 47) (codes (shown api v)))
        (value_error "invalid message_id")
    ok (shown api v)

  abbrev pub list_messages : Outcome (ℤ × Params) → N → Outcome String × N
  list_messages (err e) n = (err e, n)
  list_messages (ok (maximum, params)) n =
      on_answer api (request api (Resource.collection params) missing_token n) (messages_of maximum)

  unfoldable pub invoke : Credentials → String → Fields → N → Outcome String × N
  invoke c capability arguments n =
      if c.revoked
      then (err (value_error "connector credentials revoked"), n)
      else if capability == "get_message"
      then get_message (message_id_of arguments) n
      else if not (capability == "list_messages" || capability == "search_messages")
      then (err (value_error "unknown capability"), n)
      else list_messages (list_params capability arguments) n
