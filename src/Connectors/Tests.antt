-- ===== src/Connectors/Tests.antt =====
-- A calendar connector with two capabilities (connectors.py).
use openmuse.Common.{
  ℕ, String, ◌≡◌, refl, some, List, [], ◌∷◌, lookup, insert, pos, ◌+ℤ◌, Outcome, ok, err, Exception,
}
use openmuse.Common.Json.{end}
use openmuse.Policy.{Risk}
use openmuse.Connectors.{
  Capability, Connector, Grant, ScopeGrants, scopes_of, grant, allows, run_capability,
}
use openmuse.Connectors.Scopes.{Change, changes, change}

abbrev list_events : Capability
list_events = record { name = "list"; scope = "calendar.read"; risk = Risk.read; schema = end }

abbrev add_event : Capability
add_event = record { name = "add"; scope = "calendar.write"; risk = Risk.write; schema = end }

-- The world is the number of events.
abbrev calendar : Connector ℕ
calendar = record {
  name = "calendar";
  capabilities = ok (list_events ∷ add_event ∷ []);
  invoke = λ name kwargs n. (ok name, n);
  delete_cached_data = λ n. (err (Exception.os_error "busy"), n);
}

abbrev read_grant : Grant
read_grant = record { scopes = "calendar.read" ∷ []; expires_at = some (pos 160) }

abbrev granted : ScopeGrants
granted = ("calendar", read_grant) ∷ []

grants : grant [] calendar ("calendar.read" ∷ []) (some (pos 60)) 100 ≡ ok (read_grant, granted)
unfolding grant insert ◌+ℤ◌
grants = refl

abbrev history : List (Change ℕ)
history = Change.granted calendar ("calendar.read" ∷ []) (some (pos 60)) 100 ∷ []

runs : run_capability (changes [] history) calendar list_events end 120 7 ≡ (ok "list", 7)
unfolding run_capability allows changes change grant insert lookup ◌+ℤ◌
runs = refl

abbrev declares : String → List String
declares name = "calendar.read" ∷ "calendar.write" ∷ []

abbrev declared_scopes : Outcome (List Capability) → List String
declared_scopes (ok l) = scopes_of l
declared_scopes (err e) = []
