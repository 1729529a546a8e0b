-- ===== src/Gateway/Serve.antt =====
-- ServeHTTP of gateway.go up to the choice of a target.
-- The stages of the handler are functions that call the next one; each early return is a branch.
pub mod Entry
pub mod Keeps
use alzette.Shared.{
  ℕ, String, ◌==◌, Bool, true, false, ◌||◌, not, Option, none, some, ◌⊎◌, inl, inr, if◌then◌else◌,
}
use alzette.Platform.{
  Time, Digest, Result, ok, err, Error, unauthenticated, Principal, Route, RequestStart, has_scope,
  scope_inference_write,
}
use alzette.Gateway.Outcome.{route_error}
use alzette.Gateway.World.{StoreOps, Env, Config, World, read_clock, draw_id, call_store}
use alzette.Gateway.Reply.{
  Protocol, protocol_for_path, Response, write_error, Parsed, RequestError, Opened, Ending, ending,
  not_found_page, ledger_unavailable,
}
use alzette.Gateway.Auth.{Headers, authenticate_protocol}
use alzette.Gateway.Finish.{Backend, conclude, conclude_target, serve_attempts}
use alzette.Gateway.Stream.Serve.{serve_streaming}

-- An HTTP request. `decoded` is what decodeProtocolRequest makes of its body.
pub record HttpRequest : Type 0 where
  pub path : String
  pub method : String
  pub raw_query : String
  pub headers : Headers
  pub decoded : Protocol → RequestError ⊎ Parsed

-- crypto/sha256, and the store's AuthenticateHuman if it has one.
pub record Outside (S : Type 0) : Type 0 where
  pub sha256 : String → Digest
  pub authenticate_human : Option (Digest → S → Result Principal)

abbrev pub at_store :
    {S : Type 0} → Option (Digest → S → Result Principal) → S → Option (Digest → Result Principal)
at_store none s = none
at_store (some find) s = some (λ d. find d s)

module _ {S : Type 0} (env : Env) (ops : StoreOps S) (config : Config) (backend : Backend)
    (outside : Outside S) where
  -- From the secret on: the provider's body is made, and sent.
  unfoldable pub serve_prepared : Opened → Route → String → World S → Response × World S
  unfolding conclude write_error serve_attempts serve_streaming
  serve_prepared o route secret w = elim (o.parsed.encode route.target.provider_model) [
    | none ↦
        conclude env ops config backend o (ending "failed" 500 "internal_error")
          (write_error o.protocol 500 "internal_error" "api_error" "request could not be prepared"
            o.request_id)
          w
    | some body ↦
        if o.parsed.streaming
        then serve_streaming env ops config backend o route secret body w
        else serve_attempts env ops config backend o route secret body w
  ]

  -- From the bound route on: the target's address and the secret.
  unfoldable pub serve_routed : Opened → Route → World S → Response × World S
  unfolding conclude_target write_error serve_prepared
  serve_routed o route w =
      let unavailable =
        conclude_target env ops config backend o (ending "failed" 503 "target_unavailable")
          (write_error o.protocol 503 "target_unavailable" "api_error"
            "configured inference target is unavailable" o.request_id)
          route "degraded" false w in
      elim (backend.target_endpoint route.target.base_url config.allow_insecure_targets) [
        | none ↦
            conclude_target env ops config backend o (ending "failed" 502 "target_configuration")
              (write_error o.protocol 502 "target_configuration" "api_error"
                "configured inference target is invalid" o.request_id)
              route "degraded" false w
        | some endpoint ↦ elim (backend.secret_lookup route.target.secret_ref) [
          | none ↦ unavailable
          | some secret ↦ if secret == "" then unavailable else serve_prepared o route secret w
        ]
      ]

  -- From the entry in the ledger on: the scope, the route and its binding.
  unfoldable pub serve_opened : Opened → World S → Response × World S
  unfolding conclude write_error route_error serve_routed
  serve_opened o w =
      if not (has_scope o.principal scope_inference_write)
      then conclude env ops config backend o (ending "blocked" 403 "insufficient_scope")
          (write_error o.protocol 403 "insufficient_scope" "permission_error"
            "API key is not permitted to run inference" o.request_id)
          w
      else elim (ops.resolve_route o.principal o.parsed.model w.store) [
        | err e ↦
            let (status, code, message) = route_error e in
            conclude env ops config backend o (ending "blocked" status code)
              (write_error o.protocol status code "invalid_request_error" message o.request_id) w
        | ok route ↦
            let (r, w1) = call_store (ops.set_inference_request_route o.request_id route.id) w in
            elim r [
              | err e ↦
                  conclude env ops config backend o (ending "failed" 500 "ledger_error")
                    (write_error o.protocol 500 "ledger_error" "api_error"
                      "request could not be recorded" o.request_id)
                    w1
              | ok u ↦ serve_routed o route w1
            ]
      ]

  -- The request is entered in the ledger.
  unfoldable pub serve_decoded :
      Protocol → String → Principal → Parsed → World S → Response × World S
  unfolding write_error serve_opened
  serve_decoded protocol request_id principal parsed w =
      let (started, w1) = read_clock env w in
      let (r, w2) =
        call_store
          (ops.create_inference_request (record {
            id = request_id;
            principal = principal;
            model_alias = parsed.model;
            started_at = started;
          }))
          w1 in
      elim r [
        | err e ↦ (
          write_error protocol 503 "ledger_unavailable" "api_error"
              "request ledger is temporarily unavailable" request_id,
          w2,
        )
        | ok u ↦
            serve_opened
              (record {
                protocol = protocol;
                request_id = request_id;
                started_at = started;
                principal = principal;
                parsed = parsed;
              })
              w2
      ]

  -- The request has an identifier: its method, its query, its credential and its body.
  unfoldable pub serve_identified : HttpRequest → Protocol → String → World S → Response × World S
  unfolding write_error serve_decoded authenticate_protocol
  serve_identified r protocol id w =
      if not (r.method == "POST")
      then (
        write_error protocol 405 "method_not_allowed" "invalid_request_error" "method not allowed"
            id,
        w,
      )
      else if not (r.raw_query == "")
      then (
        write_error protocol 400 "unsupported_query_parameter" "invalid_request_error"
            "query parameters are not supported by this endpoint" id,
        w,
      )
      else elim (authenticate_protocol outside.sha256 (λ d. ops.authenticate d w.store)
          (at_store outside.authenticate_human w.store) r.headers protocol) [
            | err unauthenticated ↦ (
              write_error protocol 401 "invalid_api_key" "authentication_error"
                  "authentication failed" id,
              w,
            )
            | err e ↦ (
              write_error protocol 503 "authentication_unavailable" "api_error"
                  "authentication is temporarily unavailable" id,
              w,
            )
            | ok principal ↦ elim (r.decoded protocol) [
              | inl e ↦
                  (write_error protocol e.status e.code "invalid_request_error" e.message id, w)
              | inr parsed ↦ serve_decoded protocol id principal parsed w
            ]
          ]

  unfoldable pub serve_http : HttpRequest → World S → Response × World S
  unfolding protocol_for_path write_error serve_identified
  serve_http r w = elim (protocol_for_path r.path) [
    | none ↦ (not_found_page, w)
    | some protocol ↦
        let (drawn, w1) = draw_id env "req" w in
        elim drawn [
          | none ↦ (
            write_error protocol 500 "internal_error" "api_error" "request could not be initialised"
                "",
            w1,
          )
          | some id ↦ serve_identified r protocol id w1
        ]
  ]
