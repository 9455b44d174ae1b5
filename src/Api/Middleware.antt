-- ===== src/Api/Middleware.antt =====
-- internal/api/middleware.go, the chains of internal/api/server.go, and `PrometheusMiddleware` of metrics.go.
-- The status codes are those of net/http. The bodies of the responses are left out.
pub mod Window
pub mod Gate
use afd.Prelude.{
  ℕ, zero, suc, ◌+◌, ◌-◌, ◌*◌, ◌^◌, Bool, true, false, not, ◌&&◌, ◌||◌, List, [], ◌∷◌, ◌++◌, Option,
  none, some, String, str_eq, arith, if◌then◌else◌, ltb, leb, ◌==◌, ℤ, pos, ltb_ℤ, GoMap, lookup,
  insert,
}

-- What the code uses of the packages net and strings.
pub record Texts : Type 0 where
  -- `SplitHostPort`: the host, or an error.
  pub split_host : String → Option String
  -- `TrimSpace(Split(s, ",")[0])`
  pub first_of_list : String → String
  -- `SplitN(s, " ", 2)`, where it has two parts.
  pub cut_space : String → Option (String × String)
  pub has_prefix : String → String → Bool
  pub trim_space : String → String
  -- `NormalizeEndpoint` of metrics.go, which groups paths for the statistics.
  pub normalize_endpoint : String → String

-- The parts of a request that the chain reads, with the time of its arrival. A missing header is empty.
pub record Request : Type 0 where
  pub method : String
  pub path : String
  pub remote_addr : String
  pub forwarded_for : String
  pub origin : String
  pub authorization : String
  pub api_key : String
  pub content_type : String
  pub content_length : ℤ
  pub time : ℕ

-- The headers that are set, and the codes of the calls of `WriteHeader`, the last one first. The client sees
-- the first call.
pub record Writer : Type 0 where
  pub headers : GoMap String
  pub codes : List ℕ

pub record RequestWindow : Type 0 where
  pub count : ℕ
  pub window_start : ℕ

-- The state of the server: the windows of the rate limiter, the lines of the access log and the statistics
-- (method, path and code), and what the handlers work on.
pub record ApiState {ℓ} (S : Type ℓ) : Type ℓ where
  pub requests : GoMap RequestWindow
  pub access_log : List (String × String × ℕ)
  pub statistics : List (String × String × ℕ)
  pub inner : S

pub record Served {ℓ} (S : Type ℓ) : Type ℓ where
  pub panicked : Bool
  pub writer : Writer
  pub state : ApiState S

abbrev pub Handler {ℓ} : Type ℓ → Type ℓ
Handler S = Request → Writer → ApiState S → Served S

abbrev pub Middleware {ℓ} : Type ℓ → Type ℓ
Middleware S = Handler S → Handler S

abbrev pub set_header : String → String → Writer → Writer
set_header key value w = record w { headers = insert key value w.headers }

abbrev pub write_header : ℕ → Writer → Writer
write_header code w = record w { codes = code ∷ w.codes }

-- `sendError` through `writeJSON`.
unfoldable pub send_error : ℕ → Writer → Writer
send_error code w = write_header code (set_header "Content-Type" "application/json" w)

-- `statusCode` of the wrapped writer, which sees the last call.
unfoldable pub last_code : List ℕ → ℕ
last_code [] = 200
last_code (code ∷ codes) = code

unfoldable pub get_client_ip : Texts → Request → String
get_client_ip t r = elim (t.split_host r.remote_addr) [
  | some ip ↦ ip
  | none ↦ if str_eq r.forwarded_for "" then r.remote_addr else t.first_of_list r.forwarded_for
]

unfoldable pub bearer_matches : Texts → String → String → Bool
bearer_matches t header token = elim (t.cut_space header) [
  | none ↦ false
  | some (scheme, rest) ↦ str_eq scheme "Bearer" && str_eq rest token
]

unfoldable pub validate_token : Texts → Request → String → Bool
unfolding bearer_matches
validate_token t r token =
    (not (str_eq r.authorization "") && bearer_matches t r.authorization token)
    || (not (str_eq r.api_key "") && str_eq r.api_key token)

-- The method `allow` of the rate limiter, at a time.
unfoldable pub allow_ip : ℕ → ℕ → String → ℕ → GoMap RequestWindow → Bool × GoMap RequestWindow
allow_ip limit window ip now requests =
    let fresh : Bool × GoMap RequestWindow =
      (true, insert ip (record { count = 1; window_start = now }) requests) in
    elim (lookup ip requests) [
      | none ↦ fresh
      | some seen ↦
          if leb window (now - seen.window_start)
          then fresh
          else if leb limit seen.count
          then (false, requests)
          else (true, insert ip (record seen { count = seen.count + 1 }) requests)
    ]

-- The parts of `APIConfig` that the chains use; a rate limit of 0 is none.
pub record ApiConfig : Type 0 where
  pub auth_token : String
  pub limit : ℕ
  pub enable_cors : Bool
  pub cors_allowed_origins : List String

-- One tick of `cleanup`.
unfoldable pub cleanup : ℕ → ℕ → GoMap RequestWindow → GoMap RequestWindow
cleanup window now [] = []
cleanup window now ((ip, rw) ∷ others) =
    let rest = cleanup window now others in
    if leb window (now - rw.window_start) then rest else (ip, rw) ∷ rest

unfoldable pub allowed_origin : Texts → List String → String → Bool
allowed_origin t [] origin = false
allowed_origin t (o ∷ os) origin = str_eq (t.trim_space o) origin || allowed_origin t os origin

module _ {ℓ} {S : Type ℓ} where
  abbrev pub answer : Writer → ApiState S → Served S
  answer w s = record { panicked = false; writer = w; state = s }

  unfoldable pub chain : Handler S → List (Middleware S) → Handler S
  chain h [] = h
  chain h (m ∷ ms) = m (chain h ms)

  unfoldable pub recovery : Middleware S
  unfolding send_error
  recovery next r w s =
      let out = next r w s in
      if out.panicked then answer (send_error 500 out.writer) out.state else out

  unfoldable pub auth : Texts → String → Middleware S
  unfolding validate_token send_error
  auth t token next r w s =
      if str_eq token ""
      then next r w s
      else if not (validate_token t r token)
      then answer (send_error 401 w) s
      else next r w s

  -- A handler that panics is not logged.
  unfoldable pub logging : Middleware S
  unfolding last_code
  logging next r w s =
      let out = next r w s in
      let st = out.state in
      if out.panicked then out else record out {
        state = record st {
          access_log = (r.method, r.path, last_code out.writer.codes) ∷ st.access_log;
        };
      }

  unfoldable pub prometheus_middleware : Texts → Middleware S
  unfolding last_code
  prometheus_middleware t next r w s =
      let out = next r w s in
      let st = out.state in
      if out.panicked then out else record out {
        state = record st {
          statistics =
              (r.method, t.normalize_endpoint r.path, last_code out.writer.codes) ∷ st.statistics;
        };
      }

  -- `retry_after` is the text of the seconds of the window.
  unfoldable pub rate_limit : Texts → String → ℕ → ℕ → Middleware S
  unfolding get_client_ip allow_ip send_error
  rate_limit t retry_after limit window next r w s =
      let (ok, requests) = allow_ip limit window (get_client_ip t r) r.time s.requests in
      let s' = record s { requests = requests } in
      if limit == 0
      then next r w s
      else if not ok
      then answer (send_error 429 (set_header "Retry-After" retry_after w)) s'
      else next r w s'

  unfoldable pub preflight : Middleware S
  preflight next r w s =
      let w' =
        set_header "Access-Control-Allow-Headers" "Content-Type, Authorization, X-API-Key"
          (set_header "Access-Control-Allow-Methods" "GET, POST, PUT, DELETE, OPTIONS" w) in
      if str_eq r.method "OPTIONS" then answer (write_header 200 w') s else next r w' s

  unfoldable pub cors : Texts → Bool → List String → Middleware S
  unfolding preflight
  cors t enabled [] next r w s =
      if not enabled
      then next r w s
      else preflight next r (set_header "Access-Control-Allow-Origin" "*" w) s
  cors t enabled (o ∷ os) next r w s =
      let credited =
        set_header "Access-Control-Allow-Credentials" "true"
          (set_header "Vary" "Origin" (set_header "Access-Control-Allow-Origin" r.origin w)) in
      if not enabled
      then next r w s
      else if str_eq r.origin ""
      then preflight next r w s
      else if allowed_origin t (o ∷ os) r.origin
      then preflight next r credited s
      else answer (write_header 403 w) s

  unfoldable pub request_validation : Texts → Middleware S
  unfolding send_error
  request_validation t next r w s =
      if ltb_ℤ (pos (10 * 1024 * 1024)) r.content_length
      then answer (send_error 413 w) s
      else if str_eq r.method "POST"
          && not (str_eq r.content_type "")
          && not (t.has_prefix r.content_type "application/json")
          && not (t.has_prefix r.content_type "application/x-www-form-urlencoded")
      then answer (send_error 415 w) s
      else next r w s

  unfoldable pub deprecation : Middleware S
  deprecation next r w s =
      next r
        (set_header "X-AFD-Deprecation-Notice"
          "Use /api/v1/ instead; this path will be removed in a future major version"
          (set_header "Link" "</api/v1/>; rel=\"successor-version\""
            (set_header "Deprecation" "true" w)))
        s

  -- The chains of `NewServer`: of the API routes, of those without a version, of the probes, of the metrics and
  -- of the profiler.
  unfoldable pub api_chain : Texts → ApiConfig → List (Middleware S)
  unfolding recovery prometheus_middleware logging rate_limit cors auth request_validation
  api_chain t c =
      recovery
      ∷ prometheus_middleware t
      ∷ logging
      ∷ rate_limit t "60" c.limit (60 * 10 ^ 9)
      ∷ cors t c.enable_cors c.cors_allowed_origins
      ∷ auth t c.auth_token
      ∷ request_validation t
      ∷ []

  unfoldable pub unversioned_chain : Texts → ApiConfig → List (Middleware S)
  unfolding api_chain deprecation
  unversioned_chain t c = deprecation ∷ api_chain t c

  unfoldable pub probe_chain : Texts → ApiConfig → List (Middleware S)
  unfolding recovery logging cors
  probe_chain t c = recovery ∷ logging ∷ cors t c.enable_cors c.cors_allowed_origins ∷ []

  unfoldable pub metrics_chain : Texts → ApiConfig → List (Middleware S)
  unfolding recovery logging cors auth
  metrics_chain t c =
      recovery ∷ logging ∷ cors t c.enable_cors c.cors_allowed_origins ∷ auth t c.auth_token ∷ []

  unfoldable pub pprof_chain : Texts → ApiConfig → List (Middleware S)
  unfolding recovery auth
  pprof_chain t c = recovery ∷ auth t c.auth_token ∷ []
