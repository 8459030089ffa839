-- ===== src/WebChat/Server.antt =====
-- src/openmuse/web_chat.py: the POST handler. The headers are those that the request has, or the
-- defaults that the code gives; `stream` is what the client sends after them.
pub mod Guards
use openmuse.Common.{
  ℕ, String, codes, Text, Bool, true, false, not, ◌&&◌, ◌||◌, Option, none, some, List, [], ◌∷◌,
  ◌==◌, ltb, leb, eqb, if◌then◌else◌, length, take, all, text_eq, split_once, strip, is_nothing, ℤ,
  pos, negsuc, ltb_ℤ, leb_ℤ, Outcome, ok, err, Exception, value_error, type_error, grant_error,
  scope_denied, broker_error, other, message, ◌>>=◌, ◌>>◌, raise_if, or_raise,
}
use openmuse.Common.Json.{Json, Fields, get}
use openmuse.Approvals.{compare_digest}
use openmuse.Core.{Times}
use openmuse.WebChat.{WebHost, ChatEvent, ChatSession, Setup, Draws, handle, decide}

-- `+` of texts
abbrev pub concat : String → String → String
concat = Prim.Native.String.◌++◌

abbrev pub max_body_bytes : ℕ
max_body_bytes = 16384

abbrev pub max_text_chars : ℕ
max_text_chars = 4000

pub record Request : Type 0 where
  pub path : String
  pub csrf : Text
  pub content_type : Text
  pub content_length : String
  pub stream : Text

-- The body of a reply: `{"error": ...}`, or the events.
pub data Payload : Type 0 where
  failure : String → Payload
  events : List ChatEvent → Payload

-- What one POST draws.
pub record Draw : Type 0 where
  pub message : Draws
  pub now : ℕ
  pub issued : ℕ
  pub times : Times

-- `s.split(sep)[0]`
abbrev pub first_part : Option (Text × Text) → Text → Text
first_part none s = s
first_part (some (a, b)) s = a

unfoldable pub is_json_type : Text → Bool
is_json_type content_type =
    text_eq (strip (first_part (split_once 59 content_type) content_type))
      (codes "application/json")

-- `re.fullmatch(r"[A-Za-z0-9_-]{1,64}", conversation)`
abbrev pub is_word : ℕ → Bool
is_word c =
    (leb 65 c && leb c 90)
    || (leb 97 c && leb c 122)
    || (leb 48 c && leb c 57)
    || eqb c 95
    || eqb c 45

unfoldable pub is_conversation : String → Bool
is_conversation c = leb 1 (length (codes c)) && leb (length (codes c)) 64 && all is_word (codes c)

-- What the handler is asked to do.
pub data Order : Type 0 where
  say : String → String → Order
  rule : String → String → String → Order

abbrev pub text_field : Option Json → Option String
text_field (some (Json.str s)) = some s
text_field _ = none

-- `body.get("conversation_id", "default")`, where it is a text
abbrev pub conversation_field : Option Json → Option String
conversation_field none = some "default"
conversation_field v = text_field v

unfoldable pub chat_order : Fields → Outcome Order
chat_order body = do
  text ← or_raise (text_field (get "text" body)) (value_error "text must be 1-4000 characters")
  raise_if (is_nothing (strip (codes text)) || ltb max_text_chars (length (codes text)))
      (value_error "text must be 1-4000 characters")
  conversation ←
      or_raise (conversation_field (get "conversation_id" body))
        (value_error "invalid conversation_id")
  raise_if (not (is_conversation conversation)) (value_error "invalid conversation_id")
  ok (Order.say conversation text)

unfoldable pub approval_order : Fields → Outcome Order
approval_order body = do
  request_id ←
      or_raise (text_field (get "request_id" body))
        (value_error "request_id, session and decision are required")
  session ←
      or_raise (text_field (get "session" body))
        (value_error "request_id, session and decision are required")
  decision ←
      or_raise (text_field (get "decision" body))
        (value_error "request_id, session and decision are required")
  ok (Order.rule request_id session decision)

-- `except (ValueError, TypeError)`, with subclasses
abbrev pub is_bad_request : Exception → Bool
is_bad_request (value_error m) = true
is_bad_request (type_error m) = true
is_bad_request (grant_error m) = true
is_bad_request (scope_denied m) = true
is_bad_request (broker_error m) = true
is_bad_request _ = false

abbrev pub is_provider_error : Exception → Bool
is_provider_error (other c m) = c == "ProviderError"
is_provider_error _ = false

abbrev pub is_post_path : String → Bool
is_post_path path = path == "/api/chat" || path == "/api/approvals"

abbrev pub nat_of : ℤ → ℕ
nat_of (pos n) = n
nat_of (negsuc n) = 0

abbrev pub as_body : Option Json → Outcome Fields
as_body none = err (value_error "invalid JSON")
as_body (some (Json.obj fs)) = ok fs
as_body (some v) = err (type_error "request body must be an object")

module _ (w : WebHost) {P : Type 0} (u : Setup w P) (max_steps : ℕ) (csrf_token : Text) where
  -- The checks inside the `try`, up to the call of the session.
  unfoldable pub order_of : Request → Outcome Order
  order_of q = do
    n ← or_raise (w.runtime.int_text q.content_length) (value_error "invalid literal for int()")
    raise_if (leb_ℤ n (pos 0) || ltb_ℤ (pos max_body_bytes) n)
        (value_error "request body size out of range")
    body ← as_body (w.runtime.loads (take q.stream (nat_of n)))
    if q.path == "/api/chat" then chat_order body else approval_order body

  -- The call of the session
  unfoldable pub obey : Draw → Order → ChatSession w P → Outcome (List ChatEvent) × ChatSession w P
  obey d (Order.say conversation text) s =
      handle w u max_steps s conversation (strip (codes text)) d.message
  obey d (Order.rule id session decision) s =
      decide w u s id (codes session) decision d.now d.issued d.times

  -- The reply to what the `try` gave, or an exception that the server meets.
  abbrev pub reply : Outcome (List ChatEvent) → Outcome (ℕ × Payload)
  reply (ok l) = ok (200, Payload.events l)
  reply (err e) =
      if is_bad_request e
      then ok (400, Payload.failure (message e))
      else if is_provider_error e
      then ok (502, Payload.failure (concat "planner unavailable: " (message e)))
      else err e

  abbrev pub obeyed :
      Draw → Outcome Order → ChatSession w P → Outcome (ℕ × Payload) × ChatSession w P
  obeyed d (err e) s = (reply (err e), s)
  obeyed d (ok order) s = let (o, s') = obey d order s in (reply o, s')

  -- `do_POST`, from the comparison of the tokens on
  abbrev pub authenticated :
      Draw → Request → Outcome Bool → ChatSession w P → Outcome (ℕ × Payload) × ChatSession w P
  authenticated d q (err e) s = (err e, s)
  authenticated d q (ok false) s = (ok (403, Payload.failure "missing or invalid CSRF token"), s)
  authenticated d q (ok true) s =
      if is_json_type q.content_type
      then obeyed d (order_of q) s
      else (ok (415, Payload.failure "expected application/json"), s)

  unfoldable pub post : Draw → Request → ChatSession w P → Outcome (ℕ × Payload) × ChatSession w P
  post d q s =
      if is_post_path q.path
      then authenticated d q (compare_digest q.csrf csrf_token) s
      else (ok (404, Payload.failure "not found"), s)
