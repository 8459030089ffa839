-- ===== src/GoogleApi/Tests.antt =====
-- A service with one item (google_mail_connector.py, google_calendar_connector.py).
use openmuse.Common.{
  ℕ, ◌+◌, text_eq, ◌≡◌, refl, false, none, [], ◌∷◌, ◌==◌, pos, ok, err, value_error, scope_denied,
}
use openmuse.Common.Json.{Json, Items, nil, item, field, end, get}
use openmuse.Policy.{Risk}
use openmuse.Connectors.{
  Capability, ScopeGrants, read_only, ends_with, run_capability, revoke_and_delete,
}
use openmuse.GoogleApi.{Api, Credentials, int_of, maximum_of, request}
use openmuse.GoogleApi.Mail.{label_params, message_of, messages_of, message_id_of}
use openmuse.GoogleApi.Mail
use openmuse.GoogleApi.Calendar.{events_of}
use openmuse.GoogleApi.Calendar
use openmuse.GoogleApi.Results.{calendar, calendar-revoked}

abbrev one : Items
one = item (Json.obj (field "id" (Json.str "e1") end)) nil

-- The world counts the calls.
abbrev service : Api ℕ
service = record {
  text_of = λ v. "50";
  int_text = λ s. none;
  dumps = λ v. "[e1]";
  is_blank_text = λ s. s == " ";
  access_token = λ n. (ok "t", n);
  transport =
      λ r t n. (ok (field "items" (Json.arr one) (field "messages" (Json.arr one) end)), n + 1);
}

abbrev live : Credentials
live = record { revoked = false }

program : Unit {0}
unfolding Calendar.invoke Calendar.list_params events_of Mail.invoke Mail.list_params messages_of
    message_of message_id_of label_params maximum_of int_of request get
program = tt

-- The declared capabilities pass the check of a read-only connector.
declares : read_only (Mail.read_capabilities end end end) ≡ ok (Mail.read_capabilities end end end)
unfolding read_only ends_with text_eq Mail.read_capabilities
declares = refl

too_many :
    Calendar.invoke service live "list_events" (field "max_results" (Json.num (pos 251)) end) 0
    ≡ (err (value_error "max_results must be between 1 and 250"), 0)
unfolding program
too_many = refl

abbrev events : Capability
events = record { name = "list_events"; scope = "calendar.read"; risk = Risk.read; schema = end }

abbrev granted : ScopeGrants
granted = ("google_calendar", record { scopes = "calendar.read" ∷ []; expires_at = none }) ∷ []

calendar-revoked_example :
    let after = (revoke_and_delete granted (calendar service (events ∷ [])) (live, 4)).1 in
    (run_capability after.0 (calendar service (events ∷ [])) events end 9 after.1
      ≡ (err (scope_denied "scope not granted"), after.1))
    × ((calendar service (events ∷ [])).invoke "list_events" end after.1
        ≡ (err (value_error "connector credentials revoked"), after.1))
    × (after.1.1 ≡ 4)
calendar-revoked_example = calendar-revoked service (events ∷ []) granted (live, 4) events end 9
