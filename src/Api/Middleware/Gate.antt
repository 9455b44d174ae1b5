-- ===== src/Api/Middleware/Gate.antt =====
-- Which requests reach a handler of the API, and what a panic in one comes to.
use afd.Prelude.{
  ℕ, ◌*◌, ◌^◌, ◌≡◌, ◌≢◌, refl, Bool, false, ◌&&◌, List, [], ◌∷◌, some, String, str_eq, eq_iff,
  arith, Bool-cases, Option-cases, inl, inr,
}
use afd.Api.Middleware.{
  Texts, Request, Writer, ApiState, Handler, ApiConfig, validate_token, chain, recovery, auth,
  logging, prometheus_middleware, rate_limit, preflight, cors, request_validation, api_chain,
}

module _ {ℓ} {S : Type ℓ} (t : Texts) (c : ApiConfig) (r : Request) where
  -- On this request the middleware does the same whichever of two handlers that agree on it comes next.
  abbrev Agree : Handler S → Handler S → Type ℓ
  Agree h h' = (w : Writer) (s : ApiState S) → h r w s ≡ h' r w s

  auth-blocks :
      (h h' : Handler S)
      → str_eq c.auth_token "" ≡ false
      → validate_token t r c.auth_token ≡ false
      → Agree (auth t c.auth_token h) (auth t c.auth_token h')
  unfolding auth
  auth-blocks h h' configured refused w s = rw (configured, refused) refl

  recovery-Agree : (h h' : Handler S) → Agree h h' → Agree (recovery h) (recovery h')
  unfolding recovery
  recovery-Agree h h' e w s = rw (e w s) refl

  logging-Agree : (h h' : Handler S) → Agree h h' → Agree (logging h) (logging h')
  unfolding logging
  logging-Agree h h' e w s = rw (e w s) refl

  prometheus-Agree :
      (h h' : Handler S)
      → Agree h h'
      → Agree (prometheus_middleware t h) (prometheus_middleware t h')
  unfolding prometheus_middleware
  prometheus-Agree h h' e w s = rw (e w s) refl

  rate_limit-Agree :
      (text : String) (limit window : ℕ) (h h' : Handler S)
      → Agree h h'
      → Agree (rate_limit t text limit window h) (rate_limit t text limit window h')
  unfolding rate_limit
  rate_limit-Agree text limit window h h' e w s = rw (e w s, e w _) refl

  preflight-Agree : (h h' : Handler S) → Agree h h' → Agree (preflight h) (preflight h')
  unfolding preflight
  preflight-Agree h h' e w s = rw (e _ s) refl

  cors-Agree :
      (enabled : Bool) (origins : List String) (h h' : Handler S)
      → Agree h h'
      → Agree (cors t enabled origins h) (cors t enabled origins h')
  unfolding cors
  cors-Agree enabled [] h h' e w s = rw (e w s, preflight-Agree h h' e _ s) refl
  cors-Agree enabled (o ∷ os) h h' e w s =
      rw (e w s, preflight-Agree h h' e w s, preflight-Agree h h' e _ s) refl

  api_chain-blocks :
      (h h' : Handler S)
      → str_eq c.auth_token "" ≡ false
      → validate_token t r c.auth_token ≡ false
      → Agree (chain h (api_chain t c)) (chain h' (api_chain t c))
  unfolding chain api_chain
  api_chain-blocks h h' configured refused =
      let a : Handler S = auth t c.auth_token (request_validation t h) in
      let a' : Handler S = auth t c.auth_token (request_validation t h') in
      let k : Handler S = cors t c.enable_cors c.cors_allowed_origins a in
      let k' : Handler S = cors t c.enable_cors c.cors_allowed_origins a' in
      let l : Handler S = rate_limit t "60" c.limit (60 * 10 ^ 9) k in
      let l' : Handler S = rate_limit t "60" c.limit (60 * 10 ^ 9) k' in
      recovery-Agree (prometheus_middleware t (logging l)) (prometheus_middleware t (logging l')) (
        prometheus-Agree (logging l) (logging l') (
          logging-Agree l l' (
            rate_limit-Agree "60" c.limit (60 * 10 ^ 9) k k' (
              cors-Agree c.enable_cors c.cors_allowed_origins a a' (
                auth-blocks (request_validation t h) (request_validation t h') configured
                  refused)))))

not_equal : (s s' : String) → s ≢ s' → str_eq s s' ≡ false
not_equal s s' ne = elim (Bool-cases (str_eq s s')) [
  | inl same ↦ absurd (ne ((eq_iff s s').0 same))
  | inr other ↦ other
]

-- A request whose key is not the token, and whose Authorization header is not `Bearer` with the token, is refused.
validate_token-refuses :
    (t : Texts) (r : Request) (token : String)
    → r.api_key ≢ token
    → t.cut_space r.authorization ≢ some ("Bearer", token)
    → validate_token t r token ≡ false
unfolding validate_token
validate_token-refuses t r token key bearer =
    let wrong : str_eq r.api_key token ≡ false = not_equal r.api_key token key in
    elim (Option-cases (t.cut_space r.authorization)) [
      | inl uncut ↦ ground (arith, wrong, uncut)
      | inr ((scheme, rest), cut) ↦
          elim (Bool-cases (str_eq scheme "Bearer" && str_eq rest token)) [
            | inr other ↦ ground (arith, wrong, cut, other)
            | inl same ↦
                let e : scheme ≡ "Bearer" = (eq_iff scheme "Bearer").0 (ground (arith, same)) in
                let e' : rest ≡ token = (eq_iff rest token).0 (ground (arith, same)) in
                absurd (bearer (cc (cut, e, e')))
          ]
    ]

-- Where a token is configured, a request whose key is not the token, and whose Authorization header is not `Bearer`
-- with the token, never reaches a handler of the API: the answer and the state afterwards are the same whatever the
-- handler is. This holds of the chain of the API routes.
pub unauthorized_blocked {ℓ} :
    {S : Type ℓ} (t : Texts) (c : ApiConfig) (r : Request) (h h' : Handler S) (w : Writer)
    (s : ApiState S)
    → c.auth_token ≢ ""
    → r.api_key ≢ c.auth_token
    → t.cut_space r.authorization ≢ some ("Bearer", c.auth_token)
    → chain h (api_chain t c) r w s ≡ chain h' (api_chain t c) r w s
unauthorized_blocked t c r h h' w s configured key bearer =
    api_chain-blocks t c r h h' (not_equal c.auth_token "" configured)
      (validate_token-refuses t r c.auth_token key bearer) w s

-- No panic of a handler leaves the chain of the API routes.
pub api_chain-recovers {ℓ} :
    {S : Type ℓ} (t : Texts) (c : ApiConfig) (r : Request) (h : Handler S) (w : Writer)
    (s : ApiState S)
    → (chain h (api_chain t c) r w s).panicked ≡ false
unfolding chain api_chain recovery
api_chain-recovers t c r h w s = ground arith
