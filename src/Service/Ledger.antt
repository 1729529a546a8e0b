-- ===== src/Service/Ledger.antt =====
-- The handler keeps the ledger sound, and the requests that are in it already.
use alzette.Shared.{String, ◌≡◌, some}
use alzette.Shared.Dict.{get}
use alzette.Platform.{InferenceRequest}
use alzette.Memory.Defs.{Store}
use alzette.Memory.Calls.{Call, begin, bind, finish, try, settle, observe, step}
use alzette.Memory.Calls.Transition.{step-Transition}
use alzette.Memory.Calls.Invariant.{IsSound, Transition-IsSound}
use alzette.Memory.Calls.Lifecycle.{Later, Later-refl, Later-trans, Transition-Lasts}
use alzette.Gateway.World.{Env, Config, World}
use alzette.Gateway.Finish.{Backend}
use alzette.Gateway.Finish.Keeps.{Keeps}
use alzette.Gateway.Serve.{HttpRequest, Outside, serve_http}
use alzette.Gateway.Serve.Keeps.{serve_http-Kept}
use alzette.Service.{memory_ops}

-- What every call of the ledger keeps, every operation of the interface keeps.
memory_keeps :
    (P : Store → Type 0) → ((s : Store) (c : Call) → P s → P (step s c)) → Keeps memory_ops P
unfolding step
memory_keeps P h = record {
  create_request = λ x s p. h s (begin x) p;
  set_route = λ i j s p. h s (bind i j) p;
  complete_request = λ x s p. h s (finish x) p;
  create_attempt = λ x s p. h s (try x) p;
  complete_attempt = λ x s p. h s (settle x) p;
  health = λ i status t b s p. h s (observe i status t b) p;
}

-- A sound ledger in which request `k` is a later state of `r`.
pub record Preserves (k : String) (r : InferenceRequest) (s : Store) : Type 0 where
  pub sound : IsSound s
  pub now : InferenceRequest
  pub found : get s.requests k ≡ some now
  pub later : Later r now

step-Preserves :
    (k : String) (r : InferenceRequest) (s : Store) (c : Call)
    → Preserves k r s
    → Preserves k r (step s c)
step-Preserves k r s c p =
    let change = step-Transition s c in
    let (q, there, lasts) = Transition-Lasts k p.now change p.sound p.found in
    record {
      sound = Transition-IsSound change p.sound;
      now = q;
      found = there;
      later = Later-trans r p.now q p.later lasts;
    }

module _ (env : Env) (config : Config) (backend : Backend) (outside : Outside Store) where
  -- Serving a request over a sound ledger leaves a sound ledger, in which every request that was
  -- there before is still there in a later state: unchanged, if it was no longer in progress.
  pub serve_http-Preserves :
      (x : HttpRequest) (w : World Store) (k : String) (r : InferenceRequest)
      → IsSound w.store
      → get w.store.requests k ≡ some r
      → Preserves k r (serve_http env memory_ops config backend outside x w).1.store
  serve_http-Preserves x w k r sound found =
      serve_http-Kept env memory_ops config backend outside (Preserves k r)
        (memory_keeps (Preserves k r) (step-Preserves k r)) x w
        (record { sound = sound; now = r; found = found; later = Later-refl r })
