-- ===== src/Server/Json.antt =====
-- src/server/server_impl.go, NewJsonHandler and writeHttpStatus: the HTTP endpoint /json. The JSON
-- library is a parameter.
use api_ratelimit.Common.{
  Option-cases, GoString, Go, pure, ◌>>=◌, returns, ℕ, ◌≡◌, refl, ◌↔◌, ◌⊎◌, inl, inr, Option, none,
  some, [], arith,
}
use api_ratelimit.Request.{Request}
use api_ratelimit.Limiter.{Code, code_unknown, ok, over_limit}
use api_ratelimit.Limiter.Cache.{RateLimitCache}
use api_ratelimit.Service.Worker.{should_rate_limit, Service, Response, Answer, responds, fails}
use api_ratelimit.Service.Errors.{should_rate_limit-rejected}

-- The body of a reply: the text of its status, or what the JSON library wrote.
pub data Body : Type 0 where
  status_text : Body
  json : GoString → Body

pub record HttpReply : Type 0 where
  pub status : ℕ
  pub body : Body

-- protojson.Unmarshal and protojson.Marshal; `none` is an error.
pub record JsonCodec : Type 0 where
  pub unmarshal : GoString → Option Request
  pub marshal : Response → Option GoString

-- server_impl.go, writeHttpStatus
unfoldable pub write_http_status : ℕ → HttpReply
write_http_status code = record { status = code; body = status_text }

-- NewJsonHandler: the header that is written for a response; 200 is the library's default.
abbrev pub status_of_code : Code → ℕ
status_of_code code_unknown = 500
status_of_code ok = 200
status_of_code over_limit = 429

module _ {B : Type 0} (codec : JsonCodec) (cache : RateLimitCache B) where
  -- NewJsonHandler: what follows the call of the service, which never answers nil with no error
  unfoldable pub reply_to : Answer → HttpReply
  unfolding write_http_status
  reply_to (fails e) = write_http_status 400
  reply_to (responds r) = elim (codec.marshal r) [
    | none ↦ write_http_status 500
    | some s ↦ record { status = status_of_code r.overall_code; body = json s }
  ]

  unfoldable pub handle_request : Option Request → Go (Service B) HttpReply
  unfolding reply_to write_http_status should_rate_limit
  handle_request none = pure (write_http_status 400)
  handle_request (some request) = do
    answer ← should_rate_limit cache request
    pure (reply_to answer)

  -- server_impl.go, NewJsonHandler; `none` is an error of the read of the body.
  unfoldable pub json_handler : Option GoString → Go (Service B) HttpReply
  unfolding handle_request write_http_status
  json_handler none = pure (write_http_status 400)
  json_handler (some body) = handle_request (codec.unmarshal body)

  -- A request that the service rejects outright, because it has no domain or no descriptors or no
  -- configuration is loaded, gets the status 400 over HTTP.
  pub json_handler-rejected :
      (body : GoString) (request : Request) (s : Service B)
      → codec.unmarshal body ≡ some request
      → (request.domain ≡ []) ⊎ ((request.descriptors ≡ []) ⊎ (s.config ≡ none))
      → (json_handler (some body) s).0 ≡ returns (write_http_status 400)
  unfolding json_handler
  json_handler-rejected body request s parsed h =
      let (e, answered) = should_rate_limit-rejected cache request s h in
      rw parsed (rw answered refl)

  status_of_code-over_limit : (c : Code) → (status_of_code c ≡ 429) ↔ (c ≡ over_limit)
  status_of_code-over_limit c = ground arith

  reply_to-over_limit :
      (answer : Answer)
      → ((reply_to answer).status ≡ 429) ↔ (
          (r : Response) × (body : GoString) × (answer ≡ responds r)
          × (codec.marshal r ≡ some body)
          × (r.overall_code ≡ over_limit))
  unfolding reply_to
  reply_to-over_limit (fails e) = ground arith
  reply_to-over_limit (responds r) = elim (Option-cases (codec.marshal r)) [
    | inl e ↦ (
      λ h. absurd (ground (arith, e, h)),
      λ p. let (x, t, answered, written, over) = p in ground (arith, e, answered, written),
    )
    | inr (t, e) ↦ (
      λ h. (r, t, refl, e, (status_of_code-over_limit r.overall_code).0 (ground (arith, e, h))),
      λ p. let (x, u, answered, written, over) = p in ground (arith, e, answered, over),
    )
  ]

  -- A body that holds a request gets the status 429 exactly when the service answers OVER_LIMIT and
  -- the answer can be written as JSON.
  pub json_handler-over_limit :
      (body : GoString) (request : Request) (s s' : Service B) (answer : Answer)
      → codec.unmarshal body ≡ some request
      → should_rate_limit cache request s ≡ (returns answer, s')
      → (reply : HttpReply) × (json_handler (some body) s ≡ (returns reply, s'))
        × ((reply.status ≡ 429) ↔ (
            (r : Response) × (written : GoString) × (answer ≡ responds r)
            × (codec.marshal r ≡ some written)
            × (r.overall_code ≡ over_limit)))
  unfolding json_handler
  json_handler-over_limit body request s s' answer parsed h =
      (reply_to answer, rw parsed (rw h refl), reply_to-over_limit answer)
