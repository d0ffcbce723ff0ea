-- ===== src/Relay/Runs.antt =====
-- services/relay-reference/internal/relay/server.go: the relay under any sequence of requests, each
-- of which runs to its end before the next.
pub mod Refresh
pub mod Replayed
pub mod Revoked
pub mod Tickets
pub mod Uses
pub mod Admissions
pub mod Queued
pub mod Refinement
use iscp.Prelude.{◌≡◌, refl, Option, none, some, List, [], ◌∷◌, All}
use iscp.Effect.Keeps.{Keeps}
use iscp.Relay.{Config, State, Request, Moment, Library, serve, new_state}
use iscp.Relay.Admin.{handler, connect_handler}
use iscp.Relay.Connect.{Peer}
use iscp.Relay.Delivery.{queued_message}
use iscp.Relay.Stability.{IsStable}
use iscp.Relay.Stability.Handlers.{Keeps-handler, Keeps-connect_handler}
use iscp.Repository.Relay.{RelayDatabase}
use iscp.Server.Queue.Bounds.{
  IsValid, new-IsValid, call, call-IsValid, enqueues, dequeues, snapshots,
}

-- A request over HTTP, or one that becomes a connection.
pub data Call : Type 0 where
  request : Request → Moment → Call
  connection : Peer → Request → Moment → Call

abbrev pub moment_of : Call → Moment
moment_of (request r m) = m
moment_of (connection peer r m) = m

module _ (lib : Library) (cfg : Config) where
  unfoldable pub perform : Call → State → State
  perform (request r m) s = (handler lib cfg r m s).0
  perform (connection peer r m) s = (connect_handler lib cfg peer r m s).0

  unfoldable pub run : List Call → State → State
  unfolding perform
  run [] s = s
  run (c ∷ cs) s = run cs (perform c s)

module _ {lib : Library} {cfg : Config} (P : State → Type 0) (C : Moment → Type 0)
    (stable : (m : Moment) → C m → IsStable lib cfg m P) where
  perform-kept : (c : Call) (s : State) → C (moment_of c) → P s → P (perform lib cfg c s)
  unfolding perform
  perform-kept (request r m) s h p = (Keeps-handler (stable m h) r).after s p
  perform-kept (connection peer r m) s h p = (Keeps-connect_handler (stable m h) peer r).after s p

  -- What survives each elementary change of the moments of a run survives the run.
  pub run-kept :
      (cs : List Call) (s : State) → All (λ c. C (moment_of c)) cs → P s → P (run lib cfg cs s)
  unfolding run
  run-kept [] s h p = p
  run-kept (c ∷ cs) s h p = run-kept cs (perform lib cfg c s) h.1 (perform-kept c s h.0 p)

pub All-tt : (cs : List Call) → All (λ c. Unit {0}) cs
All-tt [] = tt
All-tt (c ∷ cs) = (tt, All-tt cs)

abbrev pub HasValidQueue : State → Type 0
HasValidQueue s = IsValid s.queue

pub HasValidQueue-stable :
    (lib : Library) (cfg : Config) (m : Moment) → IsStable lib cfg m HasValidQueue
unfolding call iscp.Relay.Credentials.retire_expired iscp.Relay.Credentials.revoke_held
    iscp.Relay.Credentials.revoke_all iscp.Relay.Credentials.keep_credentials
    iscp.Relay.Registration.hold_device
HasValidQueue-stable lib cfg m =
    let kept = call-IsValid lib.sorter lib.lister in
    record {
      quiet = record { repo = λ s old db e p. p; replay = λ s key expires_at p. p };
      limiter = λ s key p. p;
      enqueued = λ s raw e valid p. kept s.queue (m.now, enqueues (queued_message e raw m.now)) p;
      dequeued = λ s domain_id recipient limit p.
          kept s.queue (m.now, dequeues domain_id recipient limit) p;
      listed = λ s p. kept s.queue (m.now, snapshots) p;
      retired = λ s hash p. p;
      spent = λ s hash p. p;
      expelled = λ s device_id p. p;
      issued = λ s domain_id device_id p. p;
      held = λ s id p. p;
      consumed = λ s ticket_id max_uses p. p;
      connected = λ s connections p. p;
    }

-- Whatever the requests are, the byte account of the relay's queue is the sum of the sizes of its
-- messages, and never passes the relay's limit.
pub run-HasValidQueue :
    (lib : Library) (cfg : Config) (repo : Option RelayDatabase) (cs : List Call)
    → HasValidQueue (run lib cfg cs (new_state repo))
unfolding new_state
run-HasValidQueue lib cfg repo cs =
    run-kept HasValidQueue (λ m. Unit) (λ m h. HasValidQueue-stable lib cfg m) cs (new_state repo)
      (All-tt cs) (new-IsValid _)
