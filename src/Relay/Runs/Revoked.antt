-- ===== src/Relay/Runs/Revoked.antt =====
-- services/relay-reference/internal/relay/server.go, revokeAccess and connect: a revoked device gets
-- no connection any more.
use iscp.Prelude.{
  ◌≡◌, refl, String, Bool, true, false, ◌&&◌, Option, none, some, List, [], ◌∷◌, All, string_eq,
  ◌==◌, arith, Bool-cases, inl, inr,
}
use iscp.Prelude.Map
use iscp.Prelude.Map.{Map, get-put}
use iscp.Errors.{Error, ok}
use iscp.Effect.{
  Outcome, stop, next, ◌>>=◌, ◌>>◌, continue, handled, pure_call, stop_if, stop_with, read,
  on_error, finish, attempt,
}
use iscp.Effect.Keeps.{keeps_rules}
use iscp.Effect.Leads.{Leads, Leads-bind, Leads-then, Keeps→Leads, Leads-update}
use iscp.Identity.{DeviceIdentity, DeviceProof}
use iscp.Server.Httpx.{decode_json}
use iscp.Repository.Relay.{RelayDevice, get_device}
use iscp.Relay.{Config, State, Request, Moment, Response, Library, is_some, in_repo}
use iscp.Relay.Requests.{origin_allowed}
use iscp.Relay.Credentials.{
  revoke_with, revoke_access, revoke_held, revoke_all, retire_expired, keep_credentials,
}
use iscp.Relay.Registration.{hold_device}
use iscp.Relay.Connect.{
  Peer, Frame, Connection, method_not_allowed, too_many_requests, ready, challenge, closed, message,
  drained, connect, find_row, or_close, admitted,
}
use iscp.Relay.Stability.{IsStable, Keeps-in_repo}
use iscp.Relay.Runs.{Call, run, run-kept, All-tt}

abbrev pub IsExpelled : String → State → Type 0
IsExpelled device_id s = is_some (Map.get s.revoked device_id) ≡ true

module _ (lib : Library) (cfg : Config) (device_id : String) (m : Moment) where
  IsExpelled-stable : IsStable lib cfg m (IsExpelled device_id)
  unfolding retire_expired hold_device revoke_held revoke_all keep_credentials
  IsExpelled-stable = record {
    quiet = record { repo = λ s old db e p. p; replay = λ s key expires_at p. p };
    limiter = λ s key p. p;
    enqueued = λ s raw e valid p. p;
    dequeued = λ s domain_id recipient limit p. p;
    listed = λ s p. p;
    retired = λ s other p. p;
    spent = λ s other p. p;
    expelled = λ s other p. ground (arith, get-put s.revoked other device_id tt);
    issued = λ s domain_id device_id p. p;
    held = λ s id p. p;
    consumed = λ s ticket_id max_uses p. p;
    connected = λ s connections p. p;
  }

  revoke_with-Leads :
      (r : Request)
      → Leads (λ s. Unit {0}) (IsExpelled device_id) (revoke_with lib cfg device_id r m)
  unfolding revoke_with revoke_all
  revoke_with-Leads r = Leads-bind _ _ (Keeps→Leads _ (record { after = λ s p. tt })) (λ revoker.
      Leads-then _ _ (Keeps→Leads _ (record { after = λ s p. tt })) (
        Leads-then _ _
          (Leads-update _
            (λ s p. rw (get-put, (string_eq.beq_iff device_id device_id).1 refl) refl))
          (Keeps→Leads _ (search (keeps_rules, Keeps-in_repo IsExpelled-stable.quiet) depth 30))))

  abbrev pub Revokes : Request → Type 0
  Revokes r = decode_json lib.decode_revoke r.body ≡ ok device_id

  revoke_access-as :
      (r : Request) (s : State)
      → Revokes r
      → r.method ≡ "POST"
      → revoke_access lib cfg r m s ≡ revoke_with lib cfg device_id r m s
  unfolding revoke_access ◌>>=◌ ◌>>◌ stop_if on_error pure_call
  revoke_access-as r s names post = rw ((string_eq.beq_iff r.method "POST").1 post, names) refl

-- A frame that a device gets only once it is let in.
abbrev pub is_service : Frame → Bool
is_service method_not_allowed = false
is_service too_many_requests = false
is_service ready = true
is_service (challenge text) = false
is_service (closed text) = false
is_service (message id envelope) = true
is_service (drained n) = true

-- The connection ends early, without such a frame.
abbrev pub IsRefused : Outcome (List Frame) (List Frame) → Type 0
IsRefused outcome =
    (frames : List Frame) × (outcome ≡ stop frames) × All (λ f. is_service f ≡ false) frames

unknown_device : Moment → List Frame
unknown_device m = challenge m.challenge ∷ closed "access revoked or unknown" ∷ []

abbrev HasNoFrames : Outcome (List Frame) (Option (Outcome Error RelayDevice)) → Type 0
HasNoFrames (stop frames) = frames ≡ []
HasNoFrames (next row) = Unit

handled-HasNoFrames :
    (o : Outcome Error (Option (Outcome Error RelayDevice))) → HasNoFrames (handled (λ e. []) o)
handled-HasNoFrames (stop e) = refl
handled-HasNoFrames (next row) = tt

find_row-HasNoFrames :
    (cfg : Config) (held : Option DeviceIdentity) (device_id : String) (s : State)
    → HasNoFrames (find_row cfg held device_id s).1
unfolding find_row on_error finish
find_row-HasNoFrames cfg (some id) device_id s = tt
find_row-HasNoFrames cfg none device_id s =
    handled-HasNoFrames (in_repo (attempt (get_device cfg.domain_id device_id)) s).1

closed_out :
    (m : Moment) (s : State) (o : Outcome (List Frame) (Option (Outcome Error RelayDevice)))
    (held : Option DeviceIdentity) (rest : DeviceIdentity → Connection (List Frame))
    → HasNoFrames o
    → IsRefused
        (continue (s, o) (λ row. or_close (admitted true held row) (unknown_device m) >>= rest)).1
unfolding or_close admitted ◌>>=◌ stop_with unknown_device
closed_out m s (stop frames) held rest none' = ([], ground (arith, none'), tt)
closed_out m s (next row) held rest h = (unknown_device m, refl, (refl, (refl, tt)))

module _ (lib : Library) (cfg : Config) (peer : Peer) (r : Request) (m : Moment) (s : State)
    (proof : DeviceProof) where
  connect-IsRefused :
      peer.answer m.challenge ≡ some proof
      → IsExpelled proof.device_id s
      → IsRefused (connect lib cfg peer r m s).1
  unfolding connect ◌>>=◌ ◌>>◌ stop_if read or_close finish unknown_device
  connect-IsRefused answers expelled = elim (Bool-cases (r.method == "GET")) [
    | inr other ↦ rw other (_, refl, (refl, tt))
    | inl get ↦
        elim (Bool-cases (
          peer.upgrades
          && origin_allowed lib r cfg.allowed_origins (cfg.base_url ∷ cfg.web_socket_url ∷ []))) [
            | inr no_upgrade ↦ rw (get, no_upgrade) (_, refl, tt)
            | inl upgraded ↦ elim (Bool-cases peer.takes_challenge) [
              | inr broken ↦ rw (get, upgraded, broken) (_, refl, tt)
              | inl takes ↦
                  rw (get, upgraded, takes, answers, expelled)
                    (closed_out m _ _ _ _ (find_row-HasNoFrames cfg _ proof.device_id s))
            ]
          ]
  ]

module _ (lib : Library) (cfg : Config) where
  -- Once a revocation of a device ended without a refusal, then after any run of requests, among which
  -- the device may register again, a connection whose proof names the device is refused: it gets no
  -- frame beyond the challenge and the closing one, with a repository and without.
  pub connect-revoke_access :
      (r again : Request) (m later : Moment) (s : State) (answer : Response) (cs : List Call)
      (peer : Peer) (proof : DeviceProof)
      → Revokes lib cfg proof.device_id m r
      → r.method ≡ "POST"
      → (revoke_access lib cfg r m s).1 ≡ next answer
      → peer.answer later.challenge ≡ some proof
      → IsRefused
          (connect lib cfg peer again later (run lib cfg cs (revoke_access lib cfg r m s).0)).1
  connect-revoke_access r again m later s answer cs peer proof names post answered answers =
      let id = proof.device_id in
      let first = revoke_access-as lib cfg id m r s names post in
      let expelled = (revoke_with-Leads lib cfg id m r).to s tt answer (rw first at answered) in
      connect-IsRefused lib cfg peer again later (run lib cfg cs (revoke_access lib cfg r m s).0)
        proof answers
        (run-kept (IsExpelled id) (λ n. Unit) (λ n h. IsExpelled-stable lib cfg id n) cs
          (revoke_access lib cfg r m s).0 (All-tt cs) (rw first expelled))
