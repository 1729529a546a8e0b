-- ===== src/Gateway/World.antt =====
-- What the gateway is given (platform.Store, the clock, the identifiers, the provider, the
-- cancellation of the request) and the state that a run changes. The n-th reading of the clock,
-- the n-th identifier and the n-th reply of the provider are functions of n: a run sees one of
-- all the courses that the environment can take.
use alzette.Shared.{ℕ, suc, String, Bool, Option, List}
use alzette.Shared.Int.{ℤ}
use alzette.Platform.{
  Time, Duration, Digest, Result, Principal, Route, RequestStart, RequestFinish, AttemptStart,
  AttemptFinish,
}
use alzette.Gateway.Usage.{ReportedUsage}
use alzette.Gateway.Chunk.{Chunk, StreamState}

-- The methods of platform.Store that the gateway calls.
pub record StoreOps (S : Type 0) : Type 0 where
  pub authenticate : Digest → S → Result Principal
  pub resolve_route : Principal → String → S → Result Route
  pub create_inference_request : RequestStart → S → Result (Unit {0}) × S
  pub set_inference_request_route : String → String → S → Result (Unit {0}) × S
  pub complete_inference_request : RequestFinish → S → Result (Unit {0}) × S
  pub create_provider_attempt : AttemptStart → S → Result (Unit {0}) × S
  pub complete_provider_attempt : AttemptFinish → S → Result (Unit {0}) × S
  pub update_target_health : String → String → Time → Bool → S → Result (Unit {0}) × S

-- inference.Result and inference.ProviderError
pub record ChatResult : Type 0 where
  pub body : String
  pub size : ℕ
  pub model : String
  pub provider_request_id : String
  pub usage : Option ReportedUsage

pub record ProviderError : Type 0 where
  pub status_code : ℕ
  pub provider_request_id : String
  pub billed_usage : Option ReportedUsage
  pub retry_after : String

-- What Chat returns: an error, a result, or neither.
pub data Reply : Type 0 where
  failed : ProviderError → Reply
  answered : ChatResult → Reply
  empty : Reply

-- One call of Chat, and whether the client had gone or the attempt's deadline had passed after it.
pub record Exchange : Type 0 where
  pub reply : Reply
  pub cancelled : Bool
  pub timed_out : Bool

-- A call of the provider as it was made.
pub record Upstream : Type 0 where
  pub request_id : String
  pub attempt_number : ℕ
  pub target_id : String
  pub base_url : String
  pub provider_model : String
  pub secret : String
  pub body : String

-- A text that is written to a client's stream, and the number of calls that had been made
-- of the provider.
pub record Written : Type 0 where
  pub call : ℕ
  pub text : String

-- The body of a stream of events: its lines without the line feeds, what follows the last line feed,
-- and whether reading ended by another error than the end of the body.
pub record EventBody : Type 0 where
  pub lines : List String
  pub tail : String
  pub broken : Bool

-- A response of the provider with another status than 200. `size` is how much was read of the body,
-- at most one byte more than the limit; `none` is an error.
pub record Refusal : Type 0 where
  pub status_code : ℕ
  pub retry_after : String
  pub size : Option ℕ

-- What a streaming call of the provider meets: http.Client.Do fails, or the response is a refusal,
-- or is not of type text/event-stream, or is a stream of events. A response has its X-Generation-Id.
pub data StreamBody : Type 0 where
  unreachable : StreamBody
  refusal : String → Refusal → StreamBody
  not_events : String → StreamBody
  events : String → EventBody → StreamBody

-- The flags say whether the client had gone, and whether the attempt's deadline had passed, where
-- the call or its reading failed.
pub record StreamReply : Type 0 where
  pub body : StreamBody
  pub cancelled : Bool
  pub timed_out : Bool

pub record Env : Type 0 where
  pub now : ℕ → Time
  pub new_id : ℕ → String → Option String
  pub chat : ℕ → Upstream → Exchange
  pub stream : ℕ → Upstream → StreamReply
  -- decodeJSONValue into a chunk of a stream
  pub decode_chunk : String → Option Chunk
  -- whether the n-th write to a client's stream succeeds
  pub accepts : ℕ → Bool
  -- whether the client goes away during the n-th pause
  pub leaves : ℕ → Bool
  -- http.ParseTime
  pub parse_time : String → Option Time

pub record Config : Type 0 where
  pub max_response_bytes : ℕ
  pub retry_base_delay : Duration
  pub max_retry_delay : Duration
  pub allow_insecure_targets : Bool

-- protocolStreamEncoder: Encode and Finish, whose state is the chunks that they were given before,
-- the last one first. `none` is an error.
pub record Encoder : Type 0 where
  pub encode : List String → String → Option String
  pub finish : List String → StreamState → Option String

-- The store, how often the clock was read and an identifier drawn, the calls of the provider, the
-- pauses between attempts, what was written to the client's stream and what its encoder was given,
-- the last one first.
pub record World (S : Type 0) : Type 0 where
  pub store : S
  pub ticks : ℕ
  pub draws : ℕ
  pub sent : List Upstream
  pub pauses : List ℤ
  pub written : List Written
  pub encoded : List String

module _ {S : Type 0} (env : Env) where
  -- g.clock().UTC()
  abbrev pub read_clock : World S → Time × World S
  read_clock w = (env.now w.ticks, record w { ticks = suc w.ticks })

  -- g.newID(prefix)
  abbrev pub draw_id : String → World S → Option String × World S
  draw_id prefix w = (env.new_id w.draws prefix, record w { draws = suc w.draws })

-- A call of the store.
abbrev pub call_store {ℓ} :
    {S : Type 0} {A : Type ℓ} → (S → Result A × S) → World S → Result A × World S
call_store op w = let (r, s) = op w.store in (r, record w { store = s })
