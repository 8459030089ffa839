-- ===== src/Keyring/Document/Kept.antt =====
-- That the keys of a key file stay resolvable (audit.py).
use openmuse.Common.{
  some_not_none, String, Text, ◌≡◌, ◌⊎◌, inl, inr, refl, sym, ap, ◌∙◌, Bool, true, false, Option,
  none, some, List, [], ◌∷◌, if◌then◌else◌, arith, ◌==◌, eq_refl, all, is_some, Dict, lookup,
  insert, lookup-insert, contains, ok, ok-injective, ◌>>=◌, >>=-eq-ok, Option-cases, Bool-cases,
}
use openmuse.Common.Json.{Json, get}
use openmuse.Keyring.{KeyCodec, LegacyDoc, decode_key, decode_all, with_current, read_document}
use openmuse.Keyring.Document.{
  KeyFile, Writer, fields_of, encode_all, document_of, read_text, load, save, current_of, current,
  rotate_of, rotate, resolve,
}
use openmuse.Keyring.Document.Sizes.{is_key, AllKeys, load-AllKeys}

AllKeys-insert :
    {S : Type 0} (c : KeyCodec) (w : Writer S) (id : String) (key : Text) (keys : Dict Text)
    → is_key c w key ≡ true
    → AllKeys c w keys
    → AllKeys c w (insert id key keys)
unfolding insert
AllKeys-insert c w id key [] k a = ground arith
AllKeys-insert c w id key ((j, x) ∷ keys) k a = ground (arith, AllKeys-insert c w id key keys)

-- The calls that may write the file, each under the lock.
pub data Call : Type 0 where
  asks rotates : Text → Call

module _ {S : Type 0} (c : KeyCodec) (w : Writer S) where
  abbrev pub call : KeyFile S → Call → KeyFile S
  call f (Call.asks fresh) = (current c w f f fresh).1
  call f (Call.rotates fresh) = (rotate c w f fresh).1

  unfoldable pub call_all : KeyFile S → List Call → KeyFile S
  call_all f [] = f
  call_all f (x ∷ xs) = call_all (call f x) xs

  -- No other key that is written has this key's id.
  abbrev pub NoCollision : String → Text → Call → Type 0
  NoCollision id key (Call.asks fresh) = Unit
  NoCollision id key (Call.rotates fresh) =
      (is_key c w fresh ≡ true) × ((c.fingerprint fresh == id) ≡ false ⊎ (fresh ≡ key))

  abbrev pub NoCollisions : String → Text → List Call → Type 0
  NoCollisions id key [] = Unit
  NoCollisions id key (x ∷ xs) = NoCollision id key x × NoCollisions id key xs

  loaded-key :
      (f : KeyFile S) (id : String) (key : Text)
      → resolve c w f id ≡ ok (some key)
      → (doc : LegacyDoc c) × (load c w f ≡ ok doc) × (lookup id doc.1 ≡ some key)
  unfolding resolve
  loaded-key f id key h =
      let (doc, found, h) = >>=-eq-ok (load c w f) (λ doc. ok (lookup id doc.1)) h in
      (doc, found, ok-injective h)

  load-absent : (f : KeyFile S) → f.text ≡ none → load c w f ≡ ok (none, [])
  unfolding load read_text
  load-absent f g = rw g refl

  -- The first key is not made where a key is.
  current_of-same :
      (f : KeyFile S) (fresh : Text) (doc : LegacyDoc c) (id : String) (key : Text)
      → load c w f ≡ ok doc
      → lookup id doc.1 ≡ some key
      → (current_of c w (ok doc) fresh f).1 ≡ f
  unfolding load read_text lookup
  current_of-same f fresh (some x, keys) id key h l = refl
  current_of-same f fresh (none, keys) id key h l = elim (Option-cases f.text) [
    | inr (raw, g) ↦ rw g refl
    | inl g ↦ absurd (
        some_not_none
          (sym l ∙ ap (lookup id) (ap (λ d. d.1) (ok-injective (sym h ∙ load-absent f g)))))
  ]

  current-same :
      (f : KeyFile S) (fresh : Text) (id : String) (key : Text)
      → resolve c w f id ≡ ok (some key)
      → (current c w f f fresh).1 ≡ f
  unfolding current
  current-same f fresh id key h =
      let (doc, found, l) = loaded-key f id key h in
      ap (λ o. (current_of c w o fresh f).1) found ∙ current_of-same f fresh doc id key found l

module _ {S : Type 0} (c : KeyCodec) (w : Writer S)
    -- Base64 and JSON give back what was written, and a sorted dict holds the same items.
    (b64 : (key : Text) → c.b64decode (c.encode key) ≡ some key)
    (json : (v : Json) → w.loads (w.dumps v) ≡ some v)
    (sorted-lookup : (id : String) (d : Dict String) → lookup id (w.sorted d) ≡ lookup id d)
    (sorted-all : (p : String × String → Bool) (d : Dict String)
      → all p (w.sorted d) ≡ all p d) where
  decode-encode : (key : Text) → is_key c w key ≡ true → decode_key c (c.encode key) ≡ some key
  unfolding decode_key
  decode-encode key h = rw (b64 key, h) refl

  abbrev decodes : String × String → Bool
  decodes (id, raw) = is_some (decode_key c raw)

  abbrev decoded_at : Option String → Option Text
  decoded_at none = none
  decoded_at (some raw) = decode_key c raw

  encode_all-decodes :
      (keys : Dict Text) → AllKeys c w keys → all decodes (encode_all c w keys) ≡ true
  unfolding encode_all
  encode_all-decodes [] a = refl
  encode_all-decodes ((id, key) ∷ keys) a =
      ground (arith, ap is_some (decode-encode key (ground arith)), encode_all-decodes keys)

  lookup-encode_all :
      (id : String) (keys : Dict Text)
      → AllKeys c w keys
      → decoded_at (lookup id (encode_all c w keys)) ≡ lookup id keys
  unfolding encode_all lookup
  lookup-encode_all id [] a = refl
  lookup-encode_all id ((j, key) ∷ keys) a =
      ground (arith, decode-encode key (ground arith), lookup-encode_all id keys)

  decode_all-fields_of :
      (d : Dict String)
      → all decodes d ≡ true
      → (keys : Dict Text) × (decode_all c (fields_of d) ≡ some keys)
        × ((id : String) → lookup id keys ≡ decoded_at (lookup id d))
  unfolding decode_all fields_of lookup
  decode_all-fields_of [] a = ([], refl, λ id. refl)
  decode_all-fields_of ((j, raw) ∷ d) a = elim (Option-cases (decode_key c raw)) [
    | inl f ↦ absurd (ground (arith, f))
    | inr (key, f) ↦
        let (keys, same, found) = decode_all-fields_of d (ground arith) in
        ((j, key) ∷ keys, rw (f, same) refl, λ id. ground (arith, f, found id))
  ]

  -- A saved document is loaded with the same keys.
  load-save :
      (id : String) (keys : Dict Text)
      → AllKeys c w keys
      → contains id keys ≡ true
      → (keys' : Dict Text) × (load c w (save c w (some id, keys)) ≡ ok (some id, keys'))
        × ((j : String) → lookup j keys' ≡ lookup j keys)
  unfolding load save read_text read_document with_current get
  load-save id keys a here =
      let d = w.sorted (encode_all c w keys) in
      let (keys', same, found) =
        decode_all-fields_of d
          (sorted-all decodes (encode_all c w keys) ∙ encode_all-decodes keys a) in
      let at : (j : String) → lookup j keys' ≡ lookup j keys = λ j.
        found j
        ∙ ap decoded_at (sorted-lookup j (encode_all c w keys))
        ∙ lookup-encode_all j keys a in
      (keys', rw (json (document_of c w (some id, keys)), same, at id, here) refl, at)

  -- After a rotation the file holds the fresh key, which is current, and every other key.
  pub rotate-load :
      (f : KeyFile S) (fresh : Text) (doc : LegacyDoc c)
      → load c w f ≡ ok doc
      → is_key c w fresh ≡ true
      → (keys : Dict Text) × (load c w (rotate c w f fresh).1
          ≡ ok (some (c.fingerprint fresh), keys))
        × ((j : String)
            → lookup j keys ≡ (if c.fingerprint fresh == j then some fresh else lookup j doc.1))
  unfolding rotate
  rotate-load f fresh doc found k =
      let id = c.fingerprint fresh in
      let here : contains id (insert id fresh doc.1) ≡ true =
        ap is_some (lookup-insert id id fresh doc.1) ∙ rw (eq_refl id) refl in
      let (keys, same, at) =
        load-save id (insert id fresh doc.1)
          (AllKeys-insert c w id fresh doc.1 k (load-AllKeys c w f doc found)) here in
      (
        keys,
        ap (λ o. load c w (rotate_of c w o fresh f).1) found ∙ same,
        λ j. at j ∙ lookup-insert id j fresh doc.1,
      )

  call-resolve :
      (f : KeyFile S) (x : Call) (id : String) (key : Text)
      → NoCollision c w id key x
      → resolve c w f id ≡ ok (some key)
      → resolve c w (call c w f x) id ≡ ok (some key)
  call-resolve f (Call.asks fresh) id key n h =
      ap (λ g. resolve c w g id) (current-same c w f fresh id key h) ∙ h
  call-resolve f (Call.rotates fresh) id key (k, n) h =
      let (doc, found, l) = loaded-key c w f id key h in
      let (keys, same, at) = rotate-load f fresh doc found k in
      let key_at : lookup id keys ≡ some key = at id ∙ elim n [
        | inl differs ↦ rw differs l
        | inr is_key ↦ elim (Bool-cases (c.fingerprint fresh == id)) [
          | inl passes ↦ rw passes (ap some is_key)
          | inr fails ↦ rw fails l
        ]
      ] in
      unfold resolve in (ap (λ o. o >>= λ doc. ok (lookup id doc.1)) same ∙ ap ok key_at)

  -- Over any calls, a key that could be resolved stays resolvable under its id, as long as no other key
  -- that a rotation makes has the same id and every such key has 32 bytes.
  pub resolve-call_all :
      (xs : List Call) (f : KeyFile S) (id : String) (key : Text)
      → NoCollisions c w id key xs
      → resolve c w f id ≡ ok (some key)
      → resolve c w (call_all c w f xs) id ≡ ok (some key)
  unfolding call_all
  resolve-call_all [] f id key n h = h
  resolve-call_all (x ∷ xs) f id key n h =
      resolve-call_all xs (call c w f x) id key n.1 (call-resolve f x id key n.0 h)
