-- ===== src/Registry/Laws.antt =====
-- What holds of a registry however it was filled (registry.py).
use openmuse.Common.{
  String, ◌≡◌, ◌≢◌, refl, true, Option, none, some, List, [], ◌∷◌, ◌++◌, map, ◌==◌, eq_iff,
  if◌then◌else◌, Dict, lookup, insert, lookup-insert, insert_new, ok, >>=-eq-ok, arith, sym, ap,
  ◌∙◌, subst, append-nil, append_assoc, ok-injective, Bool-cases, Option-cases, inl, inr,
}
use mathlib.Core.Path.{subst₂}
use mathlib.Core.List.{map-append}
use openmuse.Common.Json.{Json, get}
use openmuse.Policy.{Risk, risk_value}
use openmuse.Registry.{
  Tool, RegisteredTool, is_text, is_schema, identity, register, add, add_all, descriptor, catalogue,
}

is_text-true : (j : Option Json) (s : String) → is_text j s ≡ true → j ≡ some (Json.str s)
is_text-true none s h = cc
is_text-true (some (Json.str t)) s h = ground (arith, eq_iff t s)
is_text-true (some _) s h = cc

module _ {W : Type 0} where
  -- An entry stands under the name that its tool and its descriptor state, with the risk that both
  -- state, and its schema, if any, is an object.
  pub record IsSound (name : String) (e : RegisteredTool W) : Type 0 where
    pub named : e.tool.name ≡ some name
    pub nonempty : name ≢ ""
    pub risked : e.tool.risk ≡ some e.risk
    pub states_name : get "name" e.descriptor ≡ some (Json.str name)
    pub states_risk : get "risk" e.descriptor ≡ some (Json.str (risk_value e.risk))
    pub schema : is_schema (get "schema" e.descriptor) ≡ true

  abbrev pub AllSound : Dict (RegisteredTool W) → Type 0
  AllSound tools =
      (name : String) (e : RegisteredTool W) → lookup name tools ≡ some e → IsSound name e

  -- What a successful `add` has checked, and its result.
  pub record Added (tools : Dict (RegisteredTool W)) (t : Tool W) (tools' : Dict (RegisteredTool W))
      : Type 0 where
    pub name : String
    pub risk : Risk
    pub sound : IsSound name (record { tool = t; risk = risk; descriptor = t.manifest })
    pub fresh : lookup name tools ≡ none
    pub result :
        tools' ≡ insert name (record { tool = t; risk = risk; descriptor = t.manifest }) tools

  identity-some :
      (t : Tool W) (name : String) (risk : Risk)
      → identity t ≡ some (name, risk)
      → (t.name ≡ some name) × (t.risk ≡ some risk) × (name ≢ "")
  unfolding identity
  identity-some t name risk h = elim (Option-cases t.name) [
    | inl e ↦ absurd (ground (arith, e))
    | inr (n, e) ↦ elim (Option-cases t.risk) [
      | inl f ↦ absurd (ground (arith, e, f))
      | inr (k, f) ↦
          (ground (arith, e, f), ground (arith, e, f), ground (arith, e, f, eq_iff name ""))
    ]
  ]

  register-Added :
      (tools tools' : Dict (RegisteredTool W)) (t : Tool W) (name : String) (risk : Risk)
      → identity t ≡ some (name, risk)
      → register tools t (name, risk) ≡ ok tools'
      → Added tools t tools'
  unfolding register
  register-Added tools tools' t name risk i h =
      let (named, risked, nonempty) = identity-some t name risk i in
      record {
        name = name;
        risk = risk;
        sound = record {
          named = named;
          nonempty = nonempty;
          risked = risked;
          states_name = is_text-true (get "name" t.manifest) name (ground (arith, h));
          states_risk = is_text-true (get "risk" t.manifest) (risk_value risk) (ground (arith, h));
          schema = ground (arith, h);
        };
        fresh = ground (arith, h);
        result = ground (arith, h);
      }

  pub add-Added :
      (tools tools' : Dict (RegisteredTool W)) (t : Tool W)
      → add tools t ≡ ok tools'
      → Added tools t tools'
  unfolding add
  add-Added tools tools' t h = elim (Option-cases (identity t)) [
    | inl e ↦ absurd (ground (arith, e))
    | inr ((name, risk), e) ↦ register-Added tools tools' t name risk e (ground (arith, e))
  ]

  add-AllSound :
      (tools tools' : Dict (RegisteredTool W)) (t : Tool W)
      → AllSound tools
      → add tools t ≡ ok tools'
      → AllSound tools'
  add-AllSound tools tools' t sound h k e found =
      let added = add-Added tools tools' t h in
      let new : RegisteredTool W = record {
        tool = t;
        risk = added.risk;
        descriptor = t.manifest;
      } in
      let seen : (if added.name == k then some new else lookup k tools) ≡ some e =
        sym (lookup-insert added.name k new tools) ∙ ap (lookup k) (sym added.result) ∙ found in
      elim (Bool-cases (added.name == k)) [
        | inl same ↦
            let is_new : new ≡ e = some_inj (rw same at seen) in
            subst₂ IsSound ((eq_iff added.name k).0 same) is_new added.sound
        | inr other ↦ sound k e (rw other at seen)
      ]
    where
      some_inj : {x y : RegisteredTool W} → some x ≡ some y → x ≡ y
      some_inj p = cc

  -- However a registry was filled from none, every entry is sound: it stands under its tool's own
  -- name, and its name, risk and schema are those that the copied manifest states.
  pub add_all-AllSound :
      (ts : List (Tool W)) (tools tools' : Dict (RegisteredTool W))
      → AllSound tools
      → add_all tools ts ≡ ok tools'
      → AllSound tools'
  unfolding add_all
  add_all-AllSound [] tools tools' sound h = subst AllSound (ok-injective h) sound
  add_all-AllSound (t ∷ ts) tools tools' sound h =
      let (next, added, rest) = >>=-eq-ok (add tools t) (λ x. add_all x ts) h in
      add_all-AllSound ts next tools' (add-AllSound tools next t sound added) rest

  -- Registration never changes what an earlier name stands for.
  pub add-keeps :
      (tools tools' : Dict (RegisteredTool W)) (t : Tool W) (k : String) (e : RegisteredTool W)
      → add tools t ≡ ok tools'
      → descriptor tools k ≡ some e
      → descriptor tools' k ≡ some e
  unfolding descriptor
  add-keeps tools tools' t k e h found =
      let added = add-Added tools tools' t h in
      ground (
        arith,
        added.fresh,
        added.result,
        lookup-insert added.name k (record { tool = t; risk = added.risk; descriptor = t.manifest })
            tools,
        eq_iff added.name k,
      )

  catalogue-append :
      (c d : Dict (RegisteredTool W)) → catalogue (c ++ d) ≡ catalogue c ++ catalogue d
  unfolding catalogue
  catalogue-append c d = map-append _ c d

  catalogue-add :
      (tools tools' : Dict (RegisteredTool W)) (t : Tool W)
      → add tools t ≡ ok tools'
      → catalogue tools' ≡ catalogue tools ++ t.manifest ∷ []
  catalogue-add tools tools' t h =
      let added = add-Added tools tools' t h in
      let e : RegisteredTool W = record { tool = t; risk = added.risk; descriptor = t.manifest } in
      ap catalogue (added.result ∙ insert_new added.name e tools added.fresh)
      ∙ catalogue-append tools ((added.name, e) ∷ [])
      ∙ ap (λ x. catalogue tools ++ x) (unfold catalogue in refl)

  -- The catalogue lists the manifests of the tools, in the order of their registration.
  pub catalogue-add_all :
      (ts : List (Tool W)) (tools tools' : Dict (RegisteredTool W))
      → add_all tools ts ≡ ok tools'
      → catalogue tools' ≡ catalogue tools ++ map (λ t. t.manifest) ts
  unfolding add_all
  catalogue-add_all [] tools tools' h =
      ap catalogue (sym (ok-injective h)) ∙ sym (append-nil (catalogue tools))
  catalogue-add_all (t ∷ ts) tools tools' h =
      let (next, added, rest) = >>=-eq-ok (add tools t) (λ x. add_all x ts) h in
      catalogue-add_all ts next tools' rest
      ∙ ap (λ x. x ++ map (λ s. s.manifest) ts) (catalogue-add tools next t added)
      ∙ append_assoc (catalogue tools) (t.manifest ∷ []) (map (λ s. s.manifest) ts)
