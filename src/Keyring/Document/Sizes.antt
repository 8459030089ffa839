-- ===== src/Keyring/Document/Sizes.antt =====
-- That every key of a key file that loads has 32 bytes (audit.py).
use openmuse.Common.{
  err_not_ok, some-injective, some_not_none, String, Text, ◌≡◌, inl, inr, refl, sym, ap, ◌∙◌, subst,
  Bool, true, false, Option, none, some, if◌then◌else◌, arith, eqb, length, all, Dict, contains,
  Exception, ok, err, ok-injective, >>=-eq-ok, Option-cases, Bool-cases,
}
use openmuse.Common.Json.{Json, Fields, field, end, get}
use openmuse.Keyring.{
  KeyCodec, LegacyDoc, sized, decode_key, cons_key, decode_all, with_current, decoded, keys_of,
  read_document,
}
use openmuse.Keyring.Document.{KeyFile, Writer, read_text, loaded, load, current}

ok_if {ℓ} :
    {A : Type ℓ} (b : Bool) (e : Exception) {a r : A} → (if b then ok a else err e) ≡ ok r → a ≡ r
ok_if true e h = ok-injective h
ok_if false e h = absurd (cc)

module _ {S : Type 0} (c : KeyCodec) (w : Writer S) where
  -- A key of 256 bits.
  abbrev pub is_key : Text → Bool
  is_key key = eqb (length key) 32

  abbrev pub AllKeys : Dict Text → Type 0
  AllKeys keys = all (λ p. is_key p.1) keys ≡ true

  sized-is_key : (o : Option Text) (key : Text) → sized c o ≡ some key → is_key key ≡ true
  sized-is_key none key h = absurd (cc)
  sized-is_key (some k) key h = elim (Bool-cases (is_key k)) [
    | inl passes ↦ subst (λ x. is_key x ≡ true) (some-injective (sym (rw passes refl) ∙ h)) passes
    | inr fails ↦ absurd (some_not_none (sym h ∙ rw fails refl))
  ]

  cons_key-AllKeys :
      (id : String) (o : Option Text) (rest : Option (Dict Text)) (keys : Dict Text)
      → cons_key c id o rest ≡ some keys
      → ((key : Text) → o ≡ some key → is_key key ≡ true)
      → ((ks : Dict Text) → rest ≡ some ks → AllKeys ks)
      → AllKeys keys
  cons_key-AllKeys id none rest keys h k ks = absurd (cc)
  cons_key-AllKeys id (some key) none keys h k ks = absurd (cc)
  cons_key-AllKeys id (some key) (some l) keys h k ks =
      subst AllKeys (some-injective h) (ground (arith, k key refl, ks l refl))

  decode_all-AllKeys : (fs : Fields) (keys : Dict Text) → decode_all c fs ≡ some keys → AllKeys keys
  unfolding decode_all decode_key
  decode_all-AllKeys end keys h = subst AllKeys (some-injective h) refl
  decode_all-AllKeys (field id (Json.str raw) fs) keys h =
      cons_key-AllKeys id (decode_key c raw) (decode_all c fs) keys h
        (sized-is_key (c.b64decode raw)) (decode_all-AllKeys fs)
  decode_all-AllKeys (field id Json.null fs) keys h = absurd (cc)
  decode_all-AllKeys (field id (Json.bool b) fs) keys h = absurd (cc)
  decode_all-AllKeys (field id (Json.num n) fs) keys h = absurd (cc)
  decode_all-AllKeys (field id (Json.arr xs) fs) keys h = absurd (cc)
  decode_all-AllKeys (field id (Json.obj xs) fs) keys h = absurd (cc)

  with_current-AllKeys :
      (o : Option Json) (keys : Dict Text) (doc : LegacyDoc c)
      → AllKeys keys
      → with_current c o keys ≡ ok doc
      → AllKeys doc.1
  unfolding with_current
  with_current-AllKeys none keys doc a h = subst (λ d. AllKeys d.1) (ok-injective h) a
  with_current-AllKeys (some Json.null) keys doc a h = subst (λ d. AllKeys d.1) (ok-injective h) a
  with_current-AllKeys (some (Json.str id)) keys doc a h =
      subst (λ d. AllKeys d.1) (ok_if (contains id keys) _ h) a
  with_current-AllKeys (some (Json.bool b)) keys doc a h = absurd (cc)
  with_current-AllKeys (some (Json.num b)) keys doc a h = absurd (cc)
  with_current-AllKeys (some (Json.arr b)) keys doc a h = absurd (cc)
  with_current-AllKeys (some (Json.obj b)) keys doc a h = absurd (cc)

  decoded-AllKeys :
      (ks : Fields) (current : Option Json) (doc : LegacyDoc c)
      → decoded c (decode_all c ks) current ≡ ok doc
      → AllKeys doc.1
  decoded-AllKeys ks current doc h = elim (Option-cases (decode_all c ks)) [
    | inl f ↦ absurd (err_not_ok (sym (ap (λ o. decoded c o current) f) ∙ h))
    | inr (keys, f) ↦
        with_current-AllKeys current keys doc (decode_all-AllKeys ks keys f)
          (sym (ap (λ o. decoded c o current) f) ∙ h)
  ]

  keys_of-AllKeys :
      (o current : Option Json) (doc : LegacyDoc c) → keys_of c o current ≡ ok doc → AllKeys doc.1
  keys_of-AllKeys none current doc h = absurd (cc)
  keys_of-AllKeys (some (Json.obj ks)) current doc h = decoded-AllKeys ks current doc h
  keys_of-AllKeys (some Json.null) current doc h = absurd (cc)
  keys_of-AllKeys (some (Json.bool b)) current doc h = absurd (cc)
  keys_of-AllKeys (some (Json.num b)) current doc h = absurd (cc)
  keys_of-AllKeys (some (Json.arr b)) current doc h = absurd (cc)
  keys_of-AllKeys (some (Json.str b)) current doc h = absurd (cc)

  read_document-AllKeys :
      (o : Option Json) (doc : LegacyDoc c) → read_document c o ≡ ok doc → AllKeys doc.1
  unfolding read_document
  read_document-AllKeys none doc h = absurd (cc)
  read_document-AllKeys (some (Json.obj fs)) doc h =
      keys_of-AllKeys (get "keys" fs) (get "current" fs) doc h
  read_document-AllKeys (some Json.null) doc h = absurd (cc)
  read_document-AllKeys (some (Json.bool b)) doc h = absurd (cc)
  read_document-AllKeys (some (Json.num b)) doc h = absurd (cc)
  read_document-AllKeys (some (Json.arr b)) doc h = absurd (cc)
  read_document-AllKeys (some (Json.str b)) doc h = absurd (cc)

  loaded-AllKeys : (o : Option S) (doc : LegacyDoc c) → loaded c w o ≡ ok doc → AllKeys doc.1
  loaded-AllKeys none doc h = subst (λ d. AllKeys d.1) (ok-injective h) refl
  loaded-AllKeys (some raw) doc h = read_document-AllKeys (w.loads raw) doc h

  pub load-AllKeys : (f : KeyFile S) (doc : LegacyDoc c) → load c w f ≡ ok doc → AllKeys doc.1
  unfolding load
  load-AllKeys f doc h =
      let (o, _, h) = >>=-eq-ok (read_text c w f) (loaded c w) h in loaded-AllKeys o doc h
