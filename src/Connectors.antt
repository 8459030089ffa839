-- ===== src/Connectors.antt =====
-- src/openmuse/connectors.py: capabilities behind scopes that the host grants. The clock's reading is
-- an argument, in its ticks; `W` is the world that a connector acts on.
pub mod Scopes
mod Tests
use openmuse.Common.{
  ℕ, String, codes, Text, text_eq, ◌≡◌, Bool, true, false, not, ◌&&◌, ◌||◌, Option, none, some,
  List, [], ◌∷◌, map, if◌then◌else◌, Dict, lookup, insert, erase, mem, subset, all, ℤ, pos, ◌+ℤ◌,
  ltb_ℤ, Outcome, ok, err, grant_error, scope_denied, ◌>>=◌, ◌>>◌, raise_if,
}
use openmuse.Common.Json.{Fields}
use openmuse.Policy.{Risk, is_read}

pub record Capability : Type 0 where
  pub name : String
  pub scope : String
  pub risk : Risk
  pub schema : Fields

pub record Connector (W : Type 0) : Type 0 where
  pub name : String
  pub capabilities : Outcome (List Capability)
  pub invoke : String → Fields → W → Outcome String × W
  pub delete_cached_data : W → Outcome (Unit {0}) × W

pub record Grant : Type 0 where
  pub scopes : List String
  pub expires_at : Option ℤ

abbrev pub ScopeGrants : Type 0
ScopeGrants = Dict Grant

abbrev pub is_empty : List String → Bool
is_empty [] = true
is_empty (x ∷ xs) = false

abbrev pub scopes_of : List Capability → List String
scopes_of = map (λ c. c.scope)

unfoldable pub revoke : ScopeGrants → String → ScopeGrants
revoke grants connector_name = erase connector_name grants

module _ {W : Type 0} where
  -- `ScopeGrants.grant`
  unfoldable pub grant :
      ScopeGrants → Connector W → List String → Option ℤ → ℕ → Outcome (Grant × ScopeGrants)
  grant grants connector scopes ttl_seconds now = do
    declared ← connector.capabilities
    raise_if (is_empty scopes || not (subset scopes (scopes_of declared)))
        (grant_error "grant exceeds the connector's declared scopes")
    let g =
        let e : Option ℤ = elim ttl_seconds [ none ↦ none | some t ↦ some (pos now +ℤ t) ] in
        let r : Grant = record { scopes = scopes; expires_at = e } in r
    ok (g, insert connector.name g grants)

  -- The grants are gone before the connector deletes its data, whatever comes of that.
  unfoldable pub revoke_and_delete :
      ScopeGrants → Connector W → W → Outcome (Unit {0}) × (ScopeGrants × W)
  revoke_and_delete grants connector w =
      let (o, w') = connector.delete_cached_data w in (o, (revoke grants connector.name, w'))

-- `grant.expires_at is None or time.time() < grant.expires_at`
abbrev pub is_alive : Option ℤ → ℕ → Bool
is_alive none now = true
is_alive (some e) now = ltb_ℤ (pos now) e

unfoldable pub allows : ScopeGrants → String → String → ℕ → Bool
allows grants connector_name scope now = elim (lookup connector_name grants) [
  | none ↦ false
  | some g ↦ mem scope g.scopes && is_alive g.expires_at now
]

-- `ConnectorTool.run`, whose grants are the host's at the time of the call
unfoldable pub run_capability :
    {W : Type 0} → ScopeGrants → Connector W → Capability → Fields → ℕ → W → Outcome String × W
run_capability grants connector capability kwargs now w =
    if allows grants connector.name capability.scope now
    then connector.invoke capability.name kwargs w
    else (err (scope_denied "scope not granted"), w)

-- `str.endswith`
unfoldable pub ends_with : Text → Text → Bool
ends_with [] suffix = text_eq [] suffix
ends_with (c ∷ s) suffix = text_eq (c ∷ s) suffix || ends_with s suffix

-- `ReadOnlyConnector.capabilities`, over what `read_capabilities` declares
unfoldable pub read_only : List Capability → Outcome (List Capability)
read_only declared =
    if all (λ c. is_read c.risk && ends_with (codes c.scope) (codes ".read")) declared
    then ok declared
    else err (grant_error "read-only connectors may only declare read capabilities")
