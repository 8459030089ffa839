-- ===== src/GoogleApi.antt =====
-- src/openmuse/google_mail_connector.py, src/openmuse/google_calendar_connector.py: what the two
-- read-only connectors share. The callback that gives an access token and the transport are parameters
-- that act on a world `N`. An address is its resource with its parameters: their encoding is left out.
pub mod Mail
pub mod Calendar
pub mod Bounds
pub mod Results
mod Tests
use openmuse.Common.{
  ℕ, String, Bool, true, false, not, ◌&&◌, ◌||◌, Option, none, some, List, [], ◌∷◌, ◌==◌, leb, ltb,
  if◌then◌else◌, ℤ, pos, negsuc, leb_ℤ, ltb_ℤ, Outcome, ok, err, Exception, value_error, type_error,
  ◌>>=◌, ◌>>◌, raise_if, or_raise, suc, is_nothing,
}
use openmuse.Common.Json.{Json, Items, nil, item, Fields, get}

abbrev pub Params : Type 0
Params = List (String × String)

-- What is asked for: a collection with parameters, or one item by its identifier.
pub data Resource : Type 0 where
  collection : Params → Resource
  single : String → Resource

pub record Api (N : Type 0) : Type 0 where
  -- `str(v)`, `int(text)` where it raises nothing, `json.dumps(v, sort_keys=True)`, `str.strip`
  pub text_of : Json → String
  pub int_text : String → Option ℤ
  pub dumps : Json → String
  pub is_blank_text : String → Bool
  pub access_token : N → Outcome String × N
  -- the transport, under the token
  pub transport : Resource → String → N → Outcome Fields × N

-- The connector's own state: its credentials are revoked, or not.
pub record Credentials : Type 0 where
  pub revoked : Bool

unfoldable pub delete_cached_data : Credentials → Credentials
delete_cached_data c = record { revoked = true }

abbrev pub length_items : Items → ℕ
length_items nil = 0
length_items (item x xs) = suc (length_items xs)

abbrev pub all_objects : Items → Bool
all_objects nil = true
all_objects (item (Json.obj fs) xs) = all_objects xs
all_objects (item _ xs) = false

-- `payload.get(k, [])`, where it is a list
abbrev pub items_at : Option Json → Exception → Outcome Items
items_at none e = ok nil
items_at (some (Json.arr xs)) e = ok xs
items_at (some v) e = err e

module _ {N : Type 0} (api : Api N) where
  -- `int(arguments.get("max_results", 50))`
  unfoldable pub int_of : Option Json → Outcome ℤ
  int_of none = ok (pos 50)
  int_of (some (Json.num n)) = ok n
  int_of (some (Json.bool b)) = ok (if b then pos 1 else pos 0)
  int_of (some (Json.str s)) = or_raise (api.int_text s) (value_error "invalid literal for int()")
  int_of (some v) = err (type_error "int() argument must be a string or a number")

  -- `maximum`, within its bounds
  unfoldable pub maximum_of : Fields → Outcome ℤ
  maximum_of arguments = do
    n ← int_of (get "max_results" arguments)
    raise_if (ltb_ℤ n (pos 1) || ltb_ℤ (pos 250) n)
        (value_error "max_results must be between 1 and 250")
    ok n

  -- `str(v)` as a parameter
  abbrev pub shown : Json → String
  shown (Json.str s) = s
  shown v = api.text_of v

  abbrev pub sent : Resource → Exception → Outcome String × N → Outcome Fields × N
  sent r missing (err e, n) = (err e, n)
  sent r missing (ok token, n) = if token == "" then (err missing, n) else api.transport r token n

  -- A call of the service, under a token that is read for it.
  unfoldable pub request : Resource → Exception → N → Outcome Fields × N
  request r missing n = sent r missing (api.access_token n)

  abbrev pub on_answer : Outcome Fields × N → (Fields → Outcome String) → Outcome String × N
  on_answer (err e, n) f = (err e, n)
  on_answer (ok payload, n) f = (f payload, n)

-- `len(items) > maximum`
abbrev pub exceeds : Items → ℤ → Bool
exceeds xs n = ltb_ℤ n (pos (length_items xs))
