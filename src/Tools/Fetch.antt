-- ===== src/Tools/Fetch.antt =====
-- src/openmuse/tools.py: FetchURL. `urlsplit`, IDNA, the resolver, `ipaddress` and one pinned request
-- are parameters; the resolver and the request act on a world `N`.
use openmuse.Common.{
  Dict, ℕ, String, Text, Bool, true, false, not, ◌&&◌, ◌||◌, Option, none, some, List, [], ◌∷◌,
  ◌++◌, ◌==◌, eqb, ltb, leb, if◌then◌else◌, any, take, mem, is_nothing, Outcome, ok, err, Exception,
  other, value_error, os_error, timeout_error, ◌>>=◌, ◌>>◌, raise_if,
}

pub record SplitUrl : Type 0 where
  pub scheme : String
  pub hostname : Option String
  pub has_user : Bool
  pub has_password : Bool
  -- `parsed.port`, which may raise
  pub port : Outcome (Option ℕ)
  pub path : Text
  pub query : Text

-- `_PinnedHTTPConnection` and `_PinnedHTTPSConnection`: the TCP peer is `address` at `port`, and TLS
-- checks the certificate of `host`.
pub record Connection : Type 0 where
  pub tls : Bool
  pub host : String
  pub port : ℕ
  pub address : String
  pub timeout : ℕ

pub record Network (N : Type 0) : Type 0 where
  pub urlsplit : String → Outcome SplitUrl
  pub idna : String → Outcome String
  -- the addresses of `socket.getaddrinfo`
  pub getaddrinfo : String → ℕ → N → Outcome (List String) × N
  pub is_global : String → Bool
  -- A GET for a target with these headers over a connection that is then closed: the status and the
  -- body. `http.client`, `socket` and `ssl` do it.
  pub exchange : Connection → Text → Dict String → N → Outcome (ℕ × Text) × N
  -- `bytes.decode("utf-8", errors="replace")`
  pub decode : Text → Text

-- What is asked for, once the URL has passed.
pub record Target : Type 0 where
  pub scheme : String
  pub host : String
  pub port : ℕ
  pub target : Text

abbrev pub is_web_port : Option ℕ → Bool
is_web_port none = true
is_web_port (some p) = eqb p 80 || eqb p 443

-- `parsed.port or (443 if parsed.scheme == "https" else 80)`
abbrev pub port_of : Option ℕ → String → ℕ
port_of none scheme = if scheme == "https" then 443 else 80
port_of (some p) scheme = if eqb p 0 then (if scheme == "https" then 443 else 80) else p

abbrev pub is_named : Option String → Bool
is_named none = false
is_named (some h) = not (h == "")

abbrev pub name_of : Option String → String
name_of none = ""
name_of (some h) = h

abbrev pub target_of : Text → Text → Text
target_of path query =
    (if is_nothing path then 47 ∷ [] else path) ++ (if is_nothing query then [] else 63 ∷ query)

unfoldable pub drop_all : String → List String → List String
drop_all a [] = []
drop_all a (b ∷ l) = let rest = drop_all a l in if a == b then rest else b ∷ rest

-- `list(dict.fromkeys(...))`
unfoldable pub distinct : List String → List String
distinct [] = []
distinct (a ∷ l) = a ∷ drop_all a (distinct l)

abbrev pub os_classes : List String
os_classes =
    "PermissionError" ∷ "ConnectionError" ∷ "ConnectionRefusedError" ∷ "ConnectionResetError"
    ∷ "ConnectionAbortedError" ∷ "BrokenPipeError" ∷ "RemoteDisconnected" ∷ "InterruptedError"
    ∷ "gaierror" ∷ "herror" ∷ "SSLError" ∷ "SSLCertVerificationError" ∷ "SSLEOFError" ∷ []

-- `except OSError`, with subclasses
abbrev pub is_os_error : Exception → Bool
is_os_error (os_error m) = true
is_os_error (timeout_error m) = true
is_os_error (other c m) = mem c os_classes
is_os_error _ = false

abbrev pub pinned : String → String → ℕ → String → Connection
pinned scheme host port address = record {
  tls = scheme == "https";
  host = host;
  port = port;
  address = address;
  timeout = 15;
}

abbrev pub headers : String → Dict String
headers host = ("Host", host) ∷ ("User-Agent", "OpenMuse/0.2") ∷ []

module _ {N : Type 0} (net : Network N) where
  -- `_fetch_pinned`
  abbrev pub fetch_pinned : String → String → ℕ → String → Text → N → Outcome (ℕ × Text) × N
  fetch_pinned scheme host port address target n =
      let (o, n') = net.exchange (pinned scheme host port address) target (headers host) n in
      (o >>= λ r. ok (r.0, take r.1 200001), n')

  -- The checks on the URL.
  unfoldable pub checked_url : String → Outcome Target
  checked_url url = do
    parsed ← net.urlsplit url
    raise_if
        (not (parsed.scheme == "http" || parsed.scheme == "https")
          || not (is_named parsed.hostname)
          || parsed.has_user
          || parsed.has_password)
        (value_error "invalid public URL")
    port ← parsed.port
    raise_if (not (is_web_port port)) (value_error "nonstandard port blocked")
    host ← net.idna (name_of parsed.hostname)
    ok (record {
      scheme = parsed.scheme;
      host = host;
      port = port_of port parsed.scheme;
      target = target_of parsed.path parsed.query;
    })

  abbrev pub public_addresses : Outcome (List String) → Outcome (List String)
  public_addresses (err e) = err e
  public_addresses (ok found) =
      if is_nothing found || any (λ a. not (net.is_global a)) found
      then err (value_error "private or special-use network blocked")
      else ok found

  -- What a response becomes.
  abbrev pub body_of : ℕ × Text → Outcome Text
  body_of (status, body) =
      if leb 300 status && ltb status 400
      then err (value_error "redirects are blocked")
      else if ltb status 200 || leb 300 status
      then err (value_error "HTTP status")
      else ok (net.decode (take body 200000))

  -- One turn of the loop: only an OSError lets the next address be tried.
  abbrev pub on_response : Outcome (ℕ × Text) → N → Outcome Text × N → Outcome Text × N
  on_response (ok r) n rest = (body_of r, n)
  on_response (err e) n rest = if is_os_error e then rest else (err e, n)

  -- The loop over the addresses.
  unfoldable pub try_all : Target → List String → N → Outcome Text × N
  try_all t [] n = (err (os_error "all validated destination addresses failed"), n)
  try_all t (a ∷ l) n =
      let (o, n') = fetch_pinned t.scheme t.host t.port a t.target n in
      on_response o n' (try_all t l n')

  abbrev pub fetch_from : Target → Outcome (List String) → N → Outcome Text × N
  fetch_from t (err e) n = (err e, n)
  fetch_from t (ok addresses) n = try_all t addresses n

  abbrev pub fetch_target : Outcome Target → N → Outcome Text × N
  fetch_target (err e) n = (err e, n)
  fetch_target (ok t) n =
      let (o, n') = net.getaddrinfo t.host t.port n in
      fetch_from t (public_addresses (o >>= λ l. ok (distinct l))) n'

  -- `FetchURL.run`
  unfoldable pub fetch_url : String → N → Outcome Text × N
  fetch_url url n = fetch_target (checked_url url) n
