-- ===== src/WebChat/Server/Guards.antt =====
-- What a POST passed before it reached the session (web_chat.py).
use openmuse.Common.{
  ℕ, ◌≤◌, negsuc, String, codes, Text, ◌≡◌, ◌≢◌, ◌⊎◌, inl, inr, refl, subst, Bool, true, false,
  Option, none, some, [], ◌∷◌, ◌==◌, if◌then◌else◌, length, take, arith, text_eq→eq, strip,
  is_nothing, ℤ, pos, ok, err, Exception, type_error, Bool-cases, Outcome-cases, Option-cases,
  eq_iff,
}
use openmuse.Common.Json.{Json, Fields, get}
use openmuse.Approvals.{is_ascii, compare_digest}
use openmuse.WebChat.{WebHost, ChatSession, Setup}
use openmuse.WebChat.Server.{
  Request, Draw, Order, is_json_type, is_conversation, text_field, conversation_field, chat_order,
  approval_order, is_post_path, as_body, max_body_bytes, max_text_chars, order_of, obeyed, post,
}

compare_digest-true : (s t : Text) → compare_digest s t ≡ ok true → s ≡ t
unfolding compare_digest
compare_digest-true s t h = text_eq→eq s t (ground (arith, h))

-- A message fits its bounds, and belongs to a conversation with a plain name.
abbrev pub IsWellFormed : Order → Type 0
IsWellFormed (Order.say conversation text) =
    (strip (codes text) ≢ [])
    × (length (codes text) ≤ max_text_chars)
    × (is_conversation conversation ≡ true)
IsWellFormed (Order.rule id session decision) = Unit

not_nothing : (t : Text) → is_nothing t ≡ false → t ≢ []
not_nothing [] h e = cc
not_nothing (c ∷ t) h e = cc

chat_order-IsWellFormed :
    (body : Fields) (order : Order) → chat_order body ≡ ok order → IsWellFormed order
unfolding chat_order
chat_order-IsWellFormed body order h = elim (Option-cases (text_field (get "text" body))) [
  | inl e ↦ absurd (ground (arith, e, h))
  | inr (text, e) ↦ elim (Option-cases (conversation_field (get "conversation_id" body))) [
    | inl e' ↦ absurd (ground (arith, e, e', h))
    | inr (conversation, e') ↦ elim (Bool-cases (is_conversation conversation)) [
      | inr bad ↦ absurd (ground (arith, e, e', bad, h))
      | inl good ↦ elim (Bool-cases (is_nothing (strip (codes text)))) [
        | inl none_ ↦ absurd (ground (arith, e, none_, h))
        | inr some_ ↦
            let short : length (codes text) ≤ max_text_chars = ground (arith, e, some_, h) in
            let is_order : Order.say conversation text ≡ order =
              ground (arith, e, e', good, some_, h) in
            subst IsWellFormed is_order (not_nothing (strip (codes text)) some_, short, good)
      ]
    ]
  ]
]

approval_order-IsWellFormed :
    (body : Fields) (order : Order) → approval_order body ≡ ok order → IsWellFormed order
unfolding approval_order
approval_order-IsWellFormed body (Order.rule id session decision) h = tt
approval_order-IsWellFormed body (Order.say conversation text) h = absurd (ground (arith, h))

module _ (w : WebHost) {P : Type 0} (u : Setup w P) (max_steps : ℕ) (csrf_token : Text) where
  -- The request came with the page's token, as JSON of a bounded size, to one of the two paths, and
  -- asks for something well-formed; the session and the exception or the events are those of the call.
  pub record Admitted (d : Draw) (q : Request) (s : ChatSession w P) : Type 0 where
    pub token : q.csrf ≡ csrf_token
    pub path : (q.path ≡ "/api/chat") ⊎ (q.path ≡ "/api/approvals")
    pub json : is_json_type q.content_type ≡ true
    pub size : ℕ
    pub announced : w.runtime.int_text q.content_length ≡ some (pos size)
    pub bounds : (1 ≤ size) × (size ≤ max_body_bytes)
    pub body : Fields
    pub parsed : w.runtime.loads (take q.stream size) ≡ some (Json.obj body)
    pub order : Order
    pub well_formed : IsWellFormed order
    pub obeys : post w u max_steps csrf_token d q s ≡ obeyed w u max_steps csrf_token d (ok order) s

  -- What an order that was read came from.
  record Parsed (q : Request) (order : Order) : Type 0 where
    size : ℕ
    announced : w.runtime.int_text q.content_length ≡ some (pos size)
    bounds : (1 ≤ size) × (size ≤ max_body_bytes)
    body : Fields
    parsed : w.runtime.loads (take q.stream size) ≡ some (Json.obj body)
    well_formed : IsWellFormed order

  as_body-ok : (j : Option Json) (fs : Fields) → as_body j ≡ ok fs → j ≡ some (Json.obj fs)
  as_body-ok none fs h = absurd (cc)
  as_body-ok (some (Json.obj gs)) fs h = ground (arith, h)
  as_body-ok (some _) fs h = absurd (cc)

  chosen-IsWellFormed :
      (chat : Bool) (body : Fields) (order : Order)
      → (if chat then chat_order body else approval_order body) ≡ ok order
      → IsWellFormed order
  chosen-IsWellFormed true body order h = chat_order-IsWellFormed body order h
  chosen-IsWellFormed false body order h = approval_order-IsWellFormed body order h

  sized-Parsed :
      (q : Request) (order : Order) (n : ℤ)
      → w.runtime.int_text q.content_length ≡ some n
      → order_of w u max_steps csrf_token q ≡ ok order
      → Parsed q order
  unfolding order_of
  sized-Parsed q order (negsuc n) e h = absurd (ground (arith, e, h))
  sized-Parsed q order (pos n) e h =
      elim (Outcome-cases (as_body (w.runtime.loads (take q.stream n)))) [
        | inr (x, f) ↦ absurd (ground (arith, e, f, h))
        | inl (body, f) ↦
            let chosen : (if q.path == "/api/chat" then chat_order body else approval_order body)
                ≡ ok order =
              ground (arith, e, f, h) in
            record {
              size = n;
              announced = e;
              bounds = (ground (arith, e, h), ground (arith, e, h));
              body = body;
              parsed = as_body-ok (w.runtime.loads (take q.stream n)) body f;
              well_formed = chosen-IsWellFormed (q.path == "/api/chat") body order chosen;
            }
      ]

  order_of-Parsed :
      (q : Request) (order : Order)
      → order_of w u max_steps csrf_token q ≡ ok order
      → Parsed q order
  unfolding order_of
  order_of-Parsed q order h = elim (Option-cases (w.runtime.int_text q.content_length)) [
    | inl e ↦ absurd (ground (arith, e, h))
    | inr (n, e) ↦ sized-Parsed q order n e h
  ]

  -- A POST leaves the session as it was, or it was admitted.
  pub post-Admitted :
      (d : Draw) (q : Request) (s : ChatSession w P)
      → ((post w u max_steps csrf_token d q s).1 ≡ s) ⊎ Admitted d q s
  unfolding post
  post-Admitted d q s = elim (Bool-cases (is_post_path q.path)) [
    | inr unknown ↦ inl (rw (unknown, post) refl)
    | inl known ↦ elim (Outcome-cases (compare_digest q.csrf csrf_token)) [
      | inr (x, e) ↦ inl (rw (known, e, post) refl)
      | inl (false, e) ↦ inl (rw (known, e, post) refl)
      | inl (true, e) ↦ elim (Bool-cases (is_json_type q.content_type)) [
        | inr typed ↦ inl (rw (known, e, typed, post) refl)
        | inl typed ↦ elim (Outcome-cases (order_of w u max_steps csrf_token q)) [
          | inr (x, f) ↦ inl (rw (known, e, typed, f, post) refl)
          | inl (order, f) ↦
              let p = order_of-Parsed q order f in
              inr (record {
                token = compare_digest-true q.csrf csrf_token e;
                path = path_cases q.path known;
                json = typed;
                size = p.size;
                announced = p.announced;
                bounds = p.bounds;
                body = p.body;
                parsed = p.parsed;
                order = order;
                well_formed = p.well_formed;
                obeys = rw (known, e, typed, f, post) refl;
              })
        ]
      ]
    ]
  ]
    where
      path_cases :
          (path : String)
          → is_post_path path ≡ true
          → (path ≡ "/api/chat") ⊎ (path ≡ "/api/approvals")
      path_cases path h = ground (arith, eq_iff path "/api/chat", eq_iff path "/api/approvals")

  -- A token that is not ASCII raises outside the handler's `try`, so the client gets no reply.
  pub post-unanswered :
      (d : Draw) (q : Request) (s : ChatSession w P)
      → is_post_path q.path ≡ true
      → is_ascii q.csrf ≡ false
      → (e : Exception) × (post w u max_steps csrf_token d q s ≡ (err e, s))
  unfolding post compare_digest
  post-unanswered d q s known strange = (
    type_error "comparing strings with non-ASCII characters is not supported",
    ground (arith, known, strange),
  )
