-- ===== src/Memory/Calls.antt =====
-- Sequences of calls of the ledger's operations, which is all that the lock of the store allows.
pub mod Transition
pub mod Invariant
pub mod Lifecycle
use alzette.Shared.{String, Bool, List, [], ◌∷◌}
use alzette.Platform.{Time, RequestStart, RequestFinish, AttemptStart, AttemptFinish}
use alzette.Memory.Defs.{Store}
use alzette.Memory.Ledger.{
  create_inference_request, set_inference_request_route, complete_inference_request,
  create_provider_attempt, complete_provider_attempt, update_target_health,
}

pub data Call : Type 0 where
  begin : RequestStart → Call
  bind : String → String → Call
  finish : RequestFinish → Call
  try : AttemptStart → Call
  settle : AttemptFinish → Call
  observe : String → String → Time → Bool → Call

-- The store after a call, whatever it returned.
unfoldable pub step : Store → Call → Store
step s (begin start) = (create_inference_request start s).1
step s (bind request_id route_id) = (set_inference_request_route request_id route_id s).1
step s (finish f) = (complete_inference_request f s).1
step s (try start) = (create_provider_attempt start s).1
step s (settle f) = (complete_provider_attempt f s).1
step s (observe target_id status checked_at successful) =
    (update_target_health target_id status checked_at successful s).1

unfoldable pub run : Store → List Call → Store
run s [] = s
run s (c ∷ cs) = run (step s c) cs
