-- ===== src/Tests/Streaming.antt =====
-- A request for a stream: the first provider call is refused, the second streams a completion.
use alzette.Shared.{inr, ◌≡◌, ◌⊎◌, refl, true, false, none, some, [], ◌∷◌, length}
use alzette.Gateway.Outcome.{failure}
use alzette.Gateway.World.{StreamReply, events}
use alzette.Gateway.Reply.{chat, Opened}
use alzette.Gateway.Stream.Frame.{join, read_frame, trim_return, complete}
use alzette.Gateway.Stream.Frame.Framing.{frame_lines, frame_text, read_frame-frame_lines}
use alzette.Gateway.Stream.Attempt.{stream_reply, perform_streaming_attempt}
use alzette.Gateway.Stream.Sink.{is_committed}
use alzette.Gateway.Stream.Closes.{Closes}
use alzette.Gateway.Stream.Effects.{OfLast, stream_reply-Closes}
use alzette.Gateway.Finish.Rounds.{Rounds}
use alzette.Gateway.Finish.Attempts.{Adds}
use alzette.Gateway.Finish.Agreement.{Agrees}
use alzette.Gateway.Stream.Serve.{stream_attempts, serve_streaming}
use alzette.Gateway.Stream.Order.{stream_attempts-Adds, stream_attempts-OfLast}
use alzette.Gateway.Stream.Agreement.{Streamed, serve_streaming-answer}
use alzette.Shared.Int.{wrap64}
use alzette.Shared.Dict.{get, put, has}
use alzette.Platform.{has_scope}
use alzette.Memory.Defs.{find_model, find_route}
use alzette.Memory.Access.{authenticate, resolve_route}
use alzette.Memory.Ledger.{
  create_inference_request, set_inference_request_route, create_provider_attempt,
  complete_provider_attempt, complete_inference_request,
}
use alzette.Gateway.Attempt.{perform_attempt}
use alzette.Gateway.Serve.{HttpRequest, serve_http}
use alzette.Platform.{ok}
use alzette.Memory.Defs.{Store}
use alzette.Gateway.Chunk.{start_state}
use alzette.Gateway.World.{StoreOps}
use alzette.Gateway.Stream.Sink.{Reading, Progress}
use alzette.Gateway.Stream.Rounds.{stream_loop}
use alzette.Gateway.Stream.Success.{IsRead, stream_loop-IsRead}
use alzette.Service.{memory_ops, memory_laws}
use alzette.Tests.Fixtures.{
  decode, caller, surroundings, settings, services, fresh_world, post, digest_of,
}
use alzette.Tests.Handler.{route}

abbrev asked : Opened
asked = record {
  protocol = chat;
  request_id = "req_0";
  started_at = 0;
  principal = caller;
  parsed = record {
    model = "general";
    encode = λ model. some "body";
    streaming = true;
    stream_encoder = λ protocol id model at. none;
  };
}

abbrev reply : StreamReply
reply = record {
  body = events "prov_2" (record { lines = "data: hello" ∷ "" ∷ []; tail = ""; broken = false });
  cancelled = false;
  timed_out = false;
}

read_frame-frame_lines_example :
    read_frame (frame_lines ("one" ∷ "two" ∷ []) ("data: next" ∷ [])) "tail" ≡ record {
      raw = frame_text "" ("one" ∷ "two" ∷ []);
      parts = "one" ∷ "two" ∷ [];
      end = complete;
      rest = "data: next" ∷ [];
    }
unfolding trim_return
read_frame-frame_lines_example =
    read_frame-frame_lines ("one" ∷ "two" ∷ []) ("data: next" ∷ []) "tail" (refl, (refl, tt))

stream_reply-Closes_example :
    Closes surroundings memory_ops settings "att_0" 5 fresh_world
      (stream_reply surroundings memory_ops settings services "att_0" 5 reply none fresh_world)
stream_reply-Closes_example =
    stream_reply-Closes surroundings memory_ops settings services "att_0" 5 reply none fresh_world

stream_attempts-Adds_example :
    let x =
      stream_attempts surroundings memory_ops settings services asked route "secret" "body" none 2 1
        (failure "" 0 "")
        fresh_world in
    Adds surroundings memory_ops settings services "req_0" route 2 1 fresh_world x.1
    × Rounds surroundings memory_ops settings services
        (λ m v.
          perform_streaming_attempt surroundings memory_ops settings services "req_0" route "secret"
            "body" m none v)
        (λ v. is_committed v)
        2
        1
        fresh_world
        x
stream_attempts-Adds_example =
    stream_attempts-Adds surroundings memory_ops settings services asked route "secret" "body" none
      2 1 (failure "" 0 "") fresh_world

stream_attempts-OfLast_example :
    OfLast surroundings memory_ops settings
      (stream_attempts surroundings memory_ops settings services asked route "secret" "body" none 2
        1
        (failure "" 0 "")
        fresh_world).1
stream_attempts-OfLast_example =
    stream_attempts-OfLast surroundings memory_ops settings services asked route "secret" "body"
      none 2 1 (failure "" 0 "") fresh_world refl

serve_streaming-answer_example :
    let x =
      serve_streaming surroundings memory_ops settings services asked route "secret" "body"
        fresh_world in
    Agrees surroundings memory_ops settings services memory_laws "req_0" x
    ⊎ Streamed surroundings memory_ops settings services x
serve_streaming-answer_example =
    serve_streaming-answer surroundings memory_ops settings services memory_laws asked route
      "secret" "body" fresh_world

abbrev watched : Reading
watched = record {
  id = "att_0";
  started = 5;
  body = record {
    lines = "data: hello" ∷ "" ∷ "data: [DONE]" ∷ "" ∷ [];
    tail = "";
    broken = false;
  };
  cancelled = false;
  timed_out = false;
  encoder = none;
}

-- A store that takes the end of any attempt.
abbrev lenient : StoreOps Store
lenient = record memory_ops { complete_provider_attempt = λ f s. (ok tt, s) }

abbrev untouched : Progress
untouched = record { state = start_state "prov_2"; pending = ""; total = 0 }

stream_loop_ok :
    (stream_loop surroundings lenient settings watched 5 watched.body.lines untouched
      fresh_world).0.success
    ≡ true
unfolding stream_loop join
stream_loop_ok = refl

stream_loop-IsRead_example :
    IsRead decode watched.body.tail watched.body.lines untouched.state
      (stream_loop surroundings lenient settings watched 5 watched.body.lines untouched
        fresh_world).0
stream_loop-IsRead_example =
    stream_loop-IsRead surroundings lenient settings watched 5 watched.body.lines untouched
      fresh_world stream_loop_ok

abbrev streaming_post : HttpRequest
streaming_post = record post { decoded = λ protocol. inr asked.parsed }

-- The second call is streamed to the client frame by frame.
serve_http_stream_test :
    let x =
      serve_http surroundings memory_ops settings services digest_of streaming_post fresh_world in
    (x.0.status ≡ 200)
    × (length x.1.sent ≡ 2)
    × (x.1.written
        ≡ record { call = 2; text = ": ping\ndata: [DONE]\n\n" }
          ∷ record { call = 2; text = "data: hello\n\n" }
          ∷ [])
unfolding serve_http authenticate get create_inference_request has has_scope resolve_route
    find_model find_route set_inference_request_route put perform_attempt create_provider_attempt
    complete_provider_attempt wrap64 complete_inference_request join
serve_http_stream_test = (refl, refl, refl)
