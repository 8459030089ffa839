-- ===== src/Keyring/Rotation.antt =====
-- That keys stay resolvable, however rotations interleave (audit.py).
use openmuse.Common.{
  String, Text, ◌≡◌, ◌⊎◌, inl, inr, refl, Bool, true, false, some, List, [], ◌∷◌, ◌==◌, eq_iff,
  eq_refl, arith, lookup, lookup-insert, ok, Bool-cases, Option-cases, Outcome-cases, ◌∙◌, subst,
}
use openmuse.Keyring.{
  Store, KeyCodec, decode_key, valid_key_id, legacy_doc, read_split_key, in_legacy, resolve_legacy,
  resolve, write_key, write_pointer, converge, rotate, current,
}

module _ (c : KeyCodec) where
  abbrev pub Resolves : Store → String → Text → Type 0
  Resolves s id key = resolve c s id ≡ ok (some key)

  -- A key that is written and read back.
  abbrev pub IsStorable : Text → Type 0
  IsStorable key =
      (decode_key c (c.encode key) ≡ some key) × (valid_key_id (c.fingerprint key) ≡ true)

  written-Resolves :
      (s : Store) (id : String) (key : Text)
      → decode_key c (c.encode key) ≡ some key
      → valid_key_id id ≡ true
      → Resolves (write_key c s id key) id key
  unfolding resolve read_split_key write_key
  written-Resolves s id key d v =
      ground (arith, d, v, lookup-insert id id (c.encode key) s.slots, eq_refl id)

  read_split_key-slot :
      (s s' : Store) (id : String)
      → lookup id s'.slots ≡ lookup id s.slots
      → read_split_key c s' id ≡ read_split_key c s id
  unfolding read_split_key
  read_split_key-slot s s' id e = elim (Option-cases (lookup id s.slots)) [
    | inl f ↦ ground (arith, e, f)
    | inr (raw, f) ↦ elim (Option-cases (decode_key c raw)) [
      | inl g ↦ ground (arith, e, f, g)
      | inr (key, g) ↦ ground (arith, e, f, g)
    ]
  ]

  legacy_doc-legacy : (s s' : Store) → s'.legacy ≡ s.legacy → legacy_doc c s' ≡ legacy_doc c s
  unfolding legacy_doc
  legacy_doc-legacy s s' e = elim (Option-cases s.legacy) [
    | inl f ↦ ground (arith, e, f)
    | inr (raw, f) ↦ rw (e, f) refl
  ]

  resolve_legacy-slot :
      (s s' : Store) (id : String)
      → lookup id s'.slots ≡ lookup id s.slots
      → s'.legacy ≡ s.legacy
      → resolve_legacy c s' id ≡ resolve_legacy c s id
  resolve_legacy-slot s s' id e f =
      let doc = legacy_doc-legacy s s' f in
      let slot = read_split_key-slot s s' id e in
      elim (Outcome-cases (legacy_doc c s)) [
        | inr (x, g) ↦ ground (arith, doc, g)
        | inl (l, g) ↦ elim (Option-cases (in_legacy c l id)) [
          | inl k ↦ ground (arith, doc, g, k, slot)
          | inr (key, k) ↦ ground (arith, doc, g, k)
        ]
      ]

  -- A key's resolution reads its slot and the old document only.
  resolve-slot :
      (s s' : Store) (id : String)
      → lookup id s'.slots ≡ lookup id s.slots
      → s'.legacy ≡ s.legacy
      → resolve c s' id ≡ resolve c s id
  unfolding resolve
  resolve-slot s s' id e f =
      let slot = read_split_key-slot s s' id e in
      let old = resolve_legacy-slot s s' id e f in
      elim (Outcome-cases (read_split_key c s id)) [
        | inr (x, g) ↦ ground (arith, slot, g)
        | inl (o, g) ↦ elim (Option-cases o) [
          | inl k ↦ ground (arith, slot, g, k, old)
          | inr (key, k) ↦ ground (arith, slot, g, k)
        ]
      ]

  other-Resolves :
      (s : Store) (j id : String) (k key : Text)
      → (j == id) ≡ false
      → Resolves s id key
      → Resolves (write_key c s j k) id key
  unfolding write_key
  other-Resolves s j id k key differs h =
      resolve-slot s (write_key c s j k) id
        (ground (arith, differs, lookup-insert j id (c.encode k) s.slots)) refl
      ∙ h

  Resolves-valid :
      (s : Store) (id : String) (key : Text) → Resolves s id key → valid_key_id id ≡ true
  unfolding resolve
  Resolves-valid s id key h = elim (Bool-cases (valid_key_id id)) [
    | inl v ↦ v
    | inr v ↦ absurd (ground (arith, h, v))
  ]

  -- What the writers of keys do to the store, one step at a time.
  pub data Step : Type 0 where
    writes : Text → Step
    points : String → Step

  unfoldable pub step : Store → Step → Store
  step s (Step.writes key) = write_key c s (c.fingerprint key) key
  step s (Step.points id) = write_pointer c s id

  unfoldable pub steps : Store → List Step → Store
  steps s [] = s
  steps s (x ∷ xs) = steps (step s x) xs

  -- The keys that are written are stored faithfully, and none has this key's id and is another key.
  abbrev pub NoCollision : String → Text → Step → Type 0
  NoCollision id key (Step.writes k) = IsStorable k × ((c.fingerprint k == id) ≡ false ⊎ (k ≡ key))
  NoCollision id key (Step.points j) = Unit

  abbrev pub NoCollisions : String → Text → List Step → Type 0
  NoCollisions id key [] = Unit
  NoCollisions id key (x ∷ xs) = NoCollision id key x × NoCollisions id key xs

  step-Resolves :
      (s : Store) (x : Step) (id : String) (key : Text)
      → NoCollision id key x
      → Resolves s id key
      → Resolves (step s x) id key
  unfolding step
  step-Resolves s (Step.writes k) id key n h = elim (Bool-cases (c.fingerprint k == id)) [
    | inr differs ↦ other-Resolves s (c.fingerprint k) id k key differs h
    | inl is_id ↦ elim n.1 [
      | inl differs ↦ absurd (ground (arith, is_id, differs))
      | inr is_key ↦
          let same = (eq_iff (c.fingerprint k) id).0 is_id in
          rw same (
            subst (λ y. Resolves (write_key c s id k) id y) is_key
              (written-Resolves s id k n.0.0 (Resolves-valid s id key h)))
    ]
  ]
  step-Resolves s (Step.points j) id key n h =
      unfold write_pointer in resolve-slot s (write_pointer c s j) id refl refl ∙ h

  -- However the steps of any number of rotations interleave, a key that was resolvable stays
  -- resolvable under its id, as long as no other key that is written has the same id.
  pub resolve-steps :
      (xs : List Step) (s : Store) (id : String) (key : Text)
      → NoCollisions id key xs
      → Resolves s id key
      → Resolves (steps s xs) id key
  unfolding steps
  resolve-steps [] s id key n h = h
  resolve-steps (x ∷ xs) s id key n h =
      resolve-steps xs (step s x) id key n.1 (step-Resolves s x id key n.0 h)

  -- A rotation returns its fresh key, which is then the current one and resolvable under its id.
  pub rotate-current :
      (s : Store) (fresh : Text) (deletes : Bool) (k : Text)
      → IsStorable fresh
      → let (o, s') = rotate c s fresh in
        (o ≡ ok (c.fingerprint fresh, fresh))
        × (current c s' k deletes ≡ (ok (c.fingerprint fresh, fresh), s'))
        × Resolves s' (c.fingerprint fresh) fresh
  unfolding rotate current converge write_pointer step
  rotate-current s fresh deletes k (d, v) =
      let h : Resolves
          (write_pointer c (write_key c s (c.fingerprint fresh) fresh) (c.fingerprint fresh))
          (c.fingerprint fresh) fresh =
        step-Resolves (write_key c s (c.fingerprint fresh) fresh)
          (Step.points (c.fingerprint fresh)) (c.fingerprint fresh) fresh tt
          (written-Resolves s (c.fingerprint fresh) fresh d v) in
      (ground (arith, h), ground (arith, h), h)
