-- ===== src/Gateway/Serve/Keeps.antt =====
-- What every operation of the store keeps, a run of the handler keeps.
use alzette.Shared.{String, ◌==◌, ◌⊎◌, inl, inr, false, Bool-cases, if_cases, Option-cases}
use alzette.Platform.{
  Result-cases, unauthenticated, Principal, Route, RequestStart, has_scope, scope_inference_write,
}
use alzette.Gateway.World.{StoreOps, Env, Config, World}
use alzette.Gateway.Reply.{
  Protocol, protocol_for_path, write_error, Response, Parsed, RequestError, Opened, Ending,
}
use alzette.Gateway.Auth.{authenticate_protocol}
use alzette.Gateway.Finish.{Backend, conclude_target}
use alzette.Gateway.Finish.Keeps.{Keeps, conclude-Kept, conclude_target-Kept, serve_attempts-Kept}
use alzette.Gateway.Stream.Keeps.{serve_streaming-Kept}
use alzette.Gateway.Serve.{
  HttpRequest, Outside, at_store, serve_prepared, serve_routed, serve_opened, serve_decoded,
  serve_identified, serve_http,
}

module _ {S : Type 0} (env : Env) (ops : StoreOps S) (config : Config) (backend : Backend)
    (outside : Outside S) (P : S → Type 0) (keeps : Keeps ops P) where
  abbrev Kept : Response × World S → Type 0
  Kept x = P x.1.store

  serve_prepared-Kept :
      (o : Opened) (route : Route) (secret : String) (w : World S)
      → P w.store
      → Kept (serve_prepared env ops config backend outside o route secret w)
  unfolding serve_prepared
  serve_prepared-Kept o route secret w h =
      elim (Option-cases (o.parsed.encode route.target.provider_model)) [
        | inl n ↦ rw (n, serve_prepared) (conclude-Kept env ops config backend P keeps o _ _ w h)
        | inr (body, y) ↦
            rw (y, serve_prepared)
              (if_cases Kept o.parsed.streaming _ _
                (serve_streaming-Kept env ops config backend P keeps o route secret body w h)
                (serve_attempts-Kept env ops config backend P keeps o route secret body w h))
      ]

  serve_routed-Kept :
      (o : Opened) (route : Route) (w : World S)
      → P w.store
      → Kept (serve_routed env ops config backend outside o route w)
  unfolding serve_routed
  serve_routed-Kept o route w h =
      elim (Option-cases
        (backend.target_endpoint route.target.base_url config.allow_insecure_targets)) [
          | inl n ↦ rw (n, serve_routed) (refused _ _)
          | inr (endpoint, y) ↦
              elim (Option-cases (backend.secret_lookup route.target.secret_ref)) [
                | inl n ↦ rw (y, n, serve_routed) (refused _ _)
                | inr (secret, z) ↦
                    rw (y, z, serve_routed)
                      (if_cases Kept (secret == "") _ _ (refused _ _)
                        (serve_prepared-Kept o route secret w h))
              ]
        ]
    where
      refused :
          (e : Ending) (r : Response)
          → Kept (conclude_target env ops config backend o e r route "degraded" false w)
      refused e r =
          conclude_target-Kept env ops config backend P keeps o e r route "degraded" false w h

  serve_opened-Kept :
      (o : Opened) (w : World S)
      → P w.store
      → Kept (serve_opened env ops config backend outside o w)
  unfolding serve_opened
  serve_opened-Kept o w h = elim (Bool-cases (has_scope o.principal scope_inference_write)) [
    | inr n ↦ rw (n, serve_opened) (conclude-Kept env ops config backend P keeps o _ _ w h)
    | inl y ↦ elim (Result-cases (ops.resolve_route o.principal o.parsed.model w.store)) [
      | inr (e, r) ↦
          rw (y, r, serve_opened) (conclude-Kept env ops config backend P keeps o _ _ w h)
      | inl (route, r) ↦
          let kept = keeps.set_route o.request_id route.id w.store h in
          elim (Result-cases (ops.set_inference_request_route o.request_id route.id w.store).0) [
            | inr (e, b) ↦
                rw (y, r, b, serve_opened)
                  (conclude-Kept env ops config backend P keeps o _ _ _ kept)
            | inl (u, b) ↦ rw (y, r, b, serve_opened) (serve_routed-Kept o route _ kept)
          ]
    ]
  ]

  serve_decoded-Kept :
      (p : Protocol) (id : String) (who : Principal) (parsed : Parsed) (w : World S)
      → P w.store
      → Kept (serve_decoded env ops config backend outside p id who parsed w)
  unfolding serve_decoded
  serve_decoded-Kept p id who parsed w h =
      let start : RequestStart = record {
        id = id;
        principal = who;
        model_alias = parsed.model;
        started_at = env.now w.ticks;
      } in
      let kept = keeps.create_request start w.store h in
      let o : Opened = record {
        protocol = p;
        request_id = id;
        started_at = env.now w.ticks;
        principal = who;
        parsed = parsed;
      } in
      elim (Result-cases (ops.create_inference_request start w.store).0) [
        | inr (e, r) ↦ rw (r, serve_decoded) kept
        | inl (u, r) ↦ rw (r, serve_decoded) (serve_opened-Kept o _ kept)
      ]

  serve_identified-Kept :
      (r : HttpRequest) (p : Protocol) (id : String) (w : World S)
      → P w.store
      → Kept (serve_identified env ops config backend outside r p id w)
  unfolding serve_identified
  serve_identified-Kept r p id w h = elim (Bool-cases (r.method == "POST")) [
    | inr n ↦ rw (n, serve_identified) h
    | inl y ↦ elim (Bool-cases (r.raw_query == "")) [
      | inr n ↦ rw (y, n, serve_identified) h
      | inl z ↦
          elim (Result-cases (
            authenticate_protocol outside.sha256 (λ d. ops.authenticate d w.store)
              (at_store outside.authenticate_human w.store) r.headers p)) [
                | inr (unauthenticated, a) ↦ rw (y, z, a, serve_identified) h
                | inr (e, a) ↦ rw (y, z, a, serve_identified) h
                | inl (who, a) ↦ rw (y, z, a, serve_identified) (decoded who (r.decoded p))
              ]
    ]
  ]
    where
      decoded :
          (who : Principal) (d : RequestError ⊎ Parsed)
          → Kept (elim d as (λ _. Response × World S) [
            | inl e ↦ (write_error p e.status e.code "invalid_request_error" e.message id, w)
            | inr parsed ↦ serve_decoded env ops config backend outside p id who parsed w
          ])
      decoded who (inl e) = h
      decoded who (inr parsed) = serve_decoded-Kept p id who parsed w h

  -- A property of the store that each of its operations keeps is kept by the whole handler,
  -- whatever the client sends and the provider answers.
  pub serve_http-Kept :
      (r : HttpRequest) (w : World S)
      → P w.store
      → P (serve_http env ops config backend outside r w).1.store
  unfolding serve_http
  serve_http-Kept r w h = elim (Option-cases (protocol_for_path r.path)) [
    | inl n ↦ rw (n, serve_http) h
    | inr (p, y) ↦ elim (Option-cases (env.new_id w.draws "req")) [
      | inl n ↦ rw (y, n, serve_http) h
      | inr (id, z) ↦ rw (y, z, serve_http) (serve_identified-Kept r p id _ h)
    ]
  ]
