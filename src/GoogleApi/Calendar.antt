-- ===== src/GoogleApi/Calendar.antt =====
-- src/openmuse/google_calendar_connector.py: GoogleCalendarConnector.invoke.
use openmuse.Common.{
  String, not, ◌||◌, Option, none, some, List, [], ◌∷◌, ◌++◌, ◌==◌, if◌then◌else◌, ℤ, Outcome, ok,
  err, value_error, type_error, key_error, ◌>>=◌, ◌>>◌, raise_if,
}
use openmuse.Common.Json.{Json, Fields, get}
use openmuse.Policy.{Risk}
use openmuse.Connectors.{Capability}
use openmuse.GoogleApi.{
  Params, Resource, Api, Credentials, items_at, maximum_of, shown, request, on_answer, exceeds,
}

unfoldable pub read_capabilities : Fields → Fields → List Capability
read_capabilities common search =
    record { name = "list_events"; scope = "calendar.read"; risk = Risk.read; schema = common }
    ∷ record { name = "search_events"; scope = "calendar.read"; risk = Risk.read; schema = search }
    ∷ []

module _ {N : Type 0} (api : Api N) where
  unfoldable pub events_of : ℤ → Fields → Outcome String
  events_of maximum payload = do
    items ← items_at (get "items" payload) (type_error "calendar items must be an array")
    raise_if (exceeds items maximum)
        (value_error "calendar response exceeded requested result bound")
    ok (api.dumps (Json.arr items))

  abbrev pub param_at : String → Option Json → Params
  param_at target none = []
  param_at target (some v) = (target, shown api v) ∷ []

  -- `str(arguments["query"])`, for a search
  abbrev pub search_params : String → Option Json → Outcome Params
  search_params capability v =
      if capability == "search_events"
      then elim v [ none ↦ err (key_error "query") | some q ↦ ok (("q", shown api q) ∷ []) ]
      else ok []

  unfoldable pub list_params : String → Fields → Outcome (ℤ × Params)
  list_params capability arguments = do
    maximum ← maximum_of api arguments
    q ← search_params capability (get "query" arguments)
    ok (
      maximum,
      ("singleEvents", "true")
          ∷ ("orderBy", "startTime")
          ∷ ("maxResults", shown api (Json.num maximum))
          ∷ (param_at "timeMin" (get "time_min" arguments)
              ++ (param_at "timeMax" (get "time_max" arguments) ++ q)),
    )

  abbrev pub list_events : Outcome (ℤ × Params) → N → Outcome String × N
  list_events (err e) n = (err e, n)
  list_events (ok (maximum, params)) n =
      on_answer api
        (request api (Resource.collection params) (value_error "calendar access token unavailable")
          n)
        (events_of maximum)

  unfoldable pub invoke : Credentials → String → Fields → N → Outcome String × N
  invoke c capability arguments n =
      if c.revoked
      then (err (value_error "connector credentials revoked"), n)
      else if not (capability == "list_events" || capability == "search_events")
      then (err (value_error "unknown capability"), n)
      else list_events (list_params capability arguments) n
