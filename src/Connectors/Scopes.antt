-- ===== src/Connectors/Scopes.antt =====
-- Which calls the host's grants let through (connectors.py).
use openmuse.Common.{
  ℕ, String, ◌≡◌, ◌⊎◌, inl, inr, true, false, ◌&&◌, Option, none, some, List, [], ◌∷◌, ◌==◌, eq_iff,
  if◌then◌else◌, arith, lookup, insert, lookup-insert, lookup-erase, mem, subset, mem-subset, ℤ,
  pos, ◌+ℤ◌, Outcome, ok, err, Exception, Bool-cases, Option-cases, Outcome-cases,
}
use openmuse.Common.Json.{Fields}
use openmuse.Connectors.{
  Capability, Connector, Grant, ScopeGrants, scopes_of, grant, revoke, revoke_and_delete, is_alive,
  allows, run_capability,
}

abbrev pub expiry : ℕ → Option ℤ → Option ℤ
expiry now none = none
expiry now (some t) = some (pos now +ℤ t)

abbrev pub kept : ScopeGrants → Outcome (Grant × ScopeGrants) → ScopeGrants
kept grants (ok (g, grants')) = grants'
kept grants (err e) = grants

-- What the host does to its grants.
pub data Change (W : Type 0) : Type 0 where
  granted : Connector W → List String → Option ℤ → ℕ → Change W
  revoked : String → Change W

-- Every grant is of scopes that `declares` gives its connector's name.
abbrev pub IsDeclared : (String → List String) → ScopeGrants → Type 0
IsDeclared declares grants =
    (name : String) (g : Grant)
    → lookup name grants ≡ some g
    → subset g.scopes (declares name) ≡ true

module _ {W : Type 0} where
  -- What a successful grant has checked, and what it stores.
  pub grant-ok :
      (grants grants' : ScopeGrants) (c : Connector W) (scopes : List String) (ttl : Option ℤ)
      (now : ℕ) (g : Grant)
      → grant grants c scopes ttl now ≡ ok (g, grants')
      → (declared : List Capability) × (c.capabilities ≡ ok declared)
        × (subset scopes (scopes_of declared) ≡ true)
        × (g ≡ record { scopes = scopes; expires_at = expiry now ttl })
        × (grants' ≡ insert c.name g grants)
  unfolding grant
  grant-ok grants grants' c scopes ttl now g h = elim (Outcome-cases c.capabilities) [
    | inr (x, e) ↦ absurd (ground (arith, e, h))
    | inl (declared, e) ↦ elim (Option-cases ttl) [
      | inl f ↦
          (declared, e, ground (arith, e, h, f), ground (arith, e, h, f), ground (arith, e, h, f))
      | inr (t, f) ↦
          (declared, e, ground (arith, e, h, f), ground (arith, e, h, f), ground (arith, e, h, f))
    ]
  ]

  -- After a grant, its connector may use exactly the granted scopes, until the grant expires; every
  -- other connector may do what it could before.
  pub allows-grant :
      (grants grants' : ScopeGrants) (c : Connector W) (scopes : List String) (ttl : Option ℤ)
      (now : ℕ) (g : Grant) (name scope : String) (later : ℕ)
      → grant grants c scopes ttl now ≡ ok (g, grants')
      → allows grants' name scope later ≡ (
          if c.name == name
          then mem scope scopes && is_alive (expiry now ttl) later
          else allows grants name scope later)
  unfolding allows
  allows-grant grants grants' c scopes ttl now g name scope later h =
      let (declared, _, _, is_g, stored) = grant-ok grants grants' c scopes ttl now g h in
      ground (arith, is_g, stored, lookup-insert c.name name g grants)

  -- After revocation the connector may use no scope, also when deleting its data raised; every
  -- other connector may do what it could before.
  pub allows-revoke_and_delete :
      (grants : ScopeGrants) (c : Connector W) (w : W) (name scope : String) (now : ℕ)
      → allows (revoke_and_delete grants c w).1.0 name scope now
        ≡ (if c.name == name then false else allows grants name scope now)
  unfolding allows revoke_and_delete revoke
  allows-revoke_and_delete grants c w name scope now =
      ground (arith, lookup-erase c.name name grants)

  unfoldable pub change : ScopeGrants → Change W → ScopeGrants
  change grants (Change.granted c scopes ttl now) = kept grants (grant grants c scopes ttl now)
  change grants (Change.revoked name) = revoke grants name

  unfoldable pub changes : ScopeGrants → List (Change W) → ScopeGrants
  changes grants [] = grants
  changes grants (c ∷ cs) = changes (change grants c) cs

  module _ (declares : String → List String) where
    -- Connectors are known by name: each declares the scopes that its name stands for.
    abbrev pub Declares : Change W → Type 0
    Declares (Change.granted c scopes ttl now) =
        (declared : List Capability)
        → c.capabilities ≡ ok declared
        → scopes_of declared ≡ declares c.name
    Declares (Change.revoked name) = Unit

    abbrev pub AllDeclare : List (Change W) → Type 0
    AllDeclare [] = Unit
    AllDeclare (c ∷ cs) = Declares c × AllDeclare cs

    change-IsDeclared :
        (grants : ScopeGrants) (c : Change W)
        → Declares c
        → IsDeclared declares grants
        → IsDeclared declares (change grants c)
    unfolding change revoke
    change-IsDeclared grants (Change.revoked r) d h name g e =
        h name g (ground (arith, e, lookup-erase r name grants))
    change-IsDeclared grants (Change.granted c scopes ttl now) d h name g e =
        elim (Outcome-cases (grant grants c scopes ttl now)) [
          | inr (x, f) ↦ h name g (ground (arith, e, f))
          | inl ((g', grants'), f) ↦
              let (declared, caps, sub, is_g, stored) =
                grant-ok grants grants' c scopes ttl now g' f in
              let named = d declared caps in
              elim (Bool-cases (c.name == name)) [
                | inr other ↦
                    h name g
                      (ground (arith, e, f, stored, other, lookup-insert c.name name g' grants))
                | inl same ↦ ground (
                  arith,
                  e,
                  f,
                  stored,
                  same,
                  is_g,
                  named,
                  sub,
                  eq_iff c.name name,
                  lookup-insert c.name name g' grants,
                )
              ]
        ]

    changes-IsDeclared :
        (cs : List (Change W)) (grants : ScopeGrants)
        → AllDeclare cs
        → IsDeclared declares grants
        → IsDeclared declares (changes grants cs)
    unfolding changes
    changes-IsDeclared [] grants d h = h
    changes-IsDeclared (c ∷ cs) grants d h =
        changes-IsDeclared cs (change grants c) d.1 (change-IsDeclared grants c d.0 h)

    -- Whatever the host granted and revoked, a connector's capability runs only under a scope that
    -- the connector declares; otherwise the call raises and the world is as it was.
    pub run_capability-declared :
        (cs : List (Change W)) (c : Connector W) (capability : Capability) (kwargs : Fields)
        (now : ℕ) (w : W)
        → AllDeclare cs
        → let call = run_capability (changes [] cs) c capability kwargs now w in
          (mem capability.scope (declares c.name) ≡ true)
            × (call ≡ c.invoke capability.name kwargs w)
          ⊎ ((e : Exception) × (call ≡ (err e, w)))
    unfolding run_capability allows
    run_capability-declared cs c capability kwargs now w d =
        let grants = changes [] cs in
        elim (Option-cases (lookup c.name grants)) [
          | inl e ↦ inr (Exception.scope_denied "scope not granted", ground (arith, e))
          | inr (g, e) ↦
              elim (Bool-cases (mem capability.scope g.scopes && is_alive g.expires_at now)) [
                | inr f ↦ inr (Exception.scope_denied "scope not granted", ground (arith, e, f))
                | inl f ↦ inl (
                  mem-subset capability.scope g.scopes (declares c.name)
                      (changes-IsDeclared cs [] d (λ n x y. absurd (unfold lookup in cc y)) c.name g
                        e)
                      (ground (arith, f)),
                  ground (arith, e, f),
                )
              ]
        ]
