-- ===== src/Relay/Delivery/Arrival.antt =====
-- services/relay-reference/internal/relay/server.go: an envelope that is accepted reaches its
-- recipient, in a relay without a repository.
use mathlib.Core.List.{Mem, mem-cons_self, mem-cons_of_mem, mem-append_right, mem-cons, Mem-prop}
use mathlib.Core.List.Perm
use text.Mathlib.TextPositions.{eq_refl}
use mathlib.Core.Logic.Or
use mathlib.Core.Path.{ap, sym, ◌∙◌}
use iscp.Prelude.{
  ℕ, ◌≤◌, ◌≡◌, refl, String, Bool, true, false, not, none, List, [], ◌∷◌, Bytes, string_eq, ltb,
  length, arith, Bool-cases, inl, inr,
}
use iscp.Prelude.Int.{pos}
use iscp.Prelude.Sort.{SliceSort, length-perm}
use iscp.Errors.{ok}
use iscp.Effect.{bind-next, next}
use iscp.Effect.Keeps.{keeps_rules, Keeps-on_error, Keeps-finish}
use iscp.Effect.Leads.{Leads, Leads-bind, Leads-then, Leads-read, Leads-known, Keeps→Leads}
use iscp.Server.Queue.{
  Message, Queue, is_live, is_for, split_for, cut, dequeue_for, before, enqueue, stamp,
}
use iscp.Server.Queue.Bounds.{enqueue-exact}
use iscp.Relay.Stability.{IsStable, Keeps-authenticate_access}
use iscp.Relay.Credentials.{retire_expired, revoke_held, revoke_all, keep_credentials}
use iscp.Relay.Registration.{hold_device}
use iscp.Server.Httpx.{decode_json}
use iscp.Relay.{
  Request, Library, Config, State, Credential, EnvelopeMeta, Moment, Response, in_repo,
  in_repo-none,
}
use iscp.Relay.Delivery.{
  queued_message, expires_at_of, accept_envelope, enqueue_message, envelopes, enqueued, or_queue,
  take_from_queue, dequeue_messages,
}

alive_lem : (expires_at now : ℕ) → now ≤ expires_at → not (ltb expires_at now) ≡ true
alive_lem expires_at now alive = ground arith

own : (x : Message) → is_for x.domain_id x.recipient_device_id x ≡ true
own x = ground (arith, eq_refl x.domain_id, eq_refl x.recipient_device_id)

-- Nothing goes back where the limit is not exceeded.
cut-all : (limit : ℕ) (ms : List Message) → length ms ≤ limit → (cut (pos limit) ms).0 ≡ ms
unfolding cut
cut-all limit [] few = ground arith
cut-all limit (m ∷ ms) few = ground arith

module _ (domain recipient : String) (now : ℕ) (x : Message) where
  -- A live message to the caller is among the matches.
  Mem-split_for :
      (ms : List Message)
      → is_live now x ≡ true
      → is_for domain recipient x ≡ true
      → Mem x ms
      → Mem x (split_for domain recipient now ms).1
  unfolding split_for
  Mem-split_for [] live due m = m
  Mem-split_for (y ∷ ms) live due m =
      Or.elim Mem-prop (mem-cons.0 m)
        (λ e.
          rw (ap (is_live now) (sym e) ∙ live, ap (is_for domain recipient) (sym e) ∙ due)
            (rw e mem-cons_self))
        (λ later. elim (Bool-cases (is_live now y)) [
          | inl l ↦ elim (Bool-cases (is_for domain recipient y)) [
            | inl d ↦ rw (l, d) (mem-cons_of_mem y (Mem-split_for ms live due later))
            | inr d ↦ rw (l, d) (Mem-split_for ms live due later)
          ]
          | inr l ↦ rw l (Mem-split_for ms live due later)
        ])

  Mem-dequeue_for :
      (sorter : SliceSort before) (limit : ℕ) (q : Queue)
      → is_live now x ≡ true
      → is_for domain recipient x ≡ true
      → length (split_for domain recipient now q.messages).1 ≤ limit
      → Mem x q.messages
      → Mem x (dequeue_for sorter domain recipient now (pos limit) q).1
  unfolding dequeue_for
  Mem-dequeue_for sorter limit q live due few m =
      let matches = (split_for domain recipient now q.messages).1 in
      rw (cut-all limit (sorter.sort matches) (rw (length-perm (sorter.sort-perm matches)) few))
        ((Perm.mem_iff (sorter.sort-perm matches)).1 (Mem-split_for q.messages live due m))

module _ (lib : Library) (cfg : Config) (x : Message) where
  abbrev Waits : State → Type 0
  Waits s = (s.repo ≡ none) × Mem x s.queue.messages

  enqueued-Waits :
      (s : State) (o : Queue × Bool)
      → s.repo ≡ none
      → (o.1 ≡ true → Mem x o.0.messages)
      → (a : Unit {0}) → (enqueued s o).1 ≡ next a
      → Waits (enqueued s o).0
  enqueued-Waits s (q, true) memory k a h = (memory, k refl)
  enqueued-Waits s (q, false) memory k a h = cc

  Leads-enqueue_message :
      (message : Message) (now : ℕ)
      → stamp now message ≡ x
      → Leads (λ s. s.repo ≡ none) Waits (enqueue_message message now)
  unfolding enqueue_message
  Leads-enqueue_message message now e = record {
    to = λ s memory. enqueued-Waits s (enqueue message now s.queue) memory (λ accepted.
        rw ((enqueue-exact message now s.queue).1, accepted, e) (mem-append_right _ mem-cons_self));
  }

  Leads-accept_envelope :
      (cred : Credential) (raw : Bytes) (e : EnvelopeMeta) (m : Moment)
      → stamp m.now (queued_message e raw m.now) ≡ x
      → Leads (λ s. s.repo ≡ none) Waits (accept_envelope lib cfg cred raw e m)
  unfolding accept_envelope
  Leads-accept_envelope cred raw e m same = Leads-then _ _ (Keeps→Leads _ (search keeps_rules)) (
      Leads-then _ _ (Keeps→Leads _ (search keeps_rules)) (
        Leads-bind _ _ (Keeps→Leads _ (search keeps_rules)) (λ canon.
          Leads-read _ _ false (λ s memory. rw memory refl)
            (Leads-then _ _ (Leads-enqueue_message _ m.now same)
              (Keeps→Leads _ (Keeps-finish _))))))

  dequeue_messages-Mem :
      (s : State) (limit now : ℕ)
      → Waits s
      → is_live now x ≡ true
      → is_for x.domain_id x.recipient_device_id x ≡ true
      → length (split_for x.domain_id x.recipient_device_id now s.queue.messages).1 ≤ limit
      → (out : List Message) × ((dequeue_messages lib x.domain_id x.recipient_device_id now
            (pos limit)
            s).1
          ≡ next out)
        × Mem x out
  unfolding dequeue_messages or_queue take_from_queue
  dequeue_messages-Mem s limit now w live due few =
      let same =
        bind-next (in_repo _) (or_queue lib x.domain_id x.recipient_device_id now (pos limit)) s s
          none (in_repo-none _ s w.0) in
      (
        (dequeue_for lib.sorter x.domain_id x.recipient_device_id now (pos limit) s.queue).1,
        ap (λ o. o.1) same,
        Mem-dequeue_for x.domain_id x.recipient_device_id now x lib.sorter limit s.queue live due
            few w.1,
      )

module _ (lib : Library) (cfg : Config) (m : Moment) where
  memory-stable : IsStable lib cfg m (λ s. s.repo ≡ none)
  unfolding retire_expired hold_device revoke_held revoke_all keep_credentials
  memory-stable = record {
    quiet = record { repo = λ s old db e p. cc; replay = λ s key expires_at p. p };
    limiter = λ s key p. p;
    enqueued = λ s raw e valid p. p;
    dequeued = λ s domain_id recipient limit p. p;
    listed = λ s p. p;
    retired = λ s other p. p;
    spent = λ s other p. p;
    expelled = λ s other p. p;
    issued = λ s domain_id device_id p. p;
    held = λ s id p. p;
    consumed = λ s ticket_id max_uses p. p;
    connected = λ s connections p. p;
  }

  Leads-envelopes :
      (r : Request) (raw : Bytes) (e : EnvelopeMeta)
      → decode_json lib.decode_raw r.body ≡ ok raw
      → decode_json lib.decode_meta raw ≡ ok e
      → Leads
          (λ s. s.repo ≡ none)
          (Waits lib cfg (stamp m.now (queued_message e raw m.now)))
          (envelopes lib cfg r m)
  unfolding envelopes
  Leads-envelopes r raw e body_ok meta_ok = Leads-then _ _ (Keeps→Leads _ (search keeps_rules)) (
      Leads-bind _ _
        (Keeps→Leads _ (Keeps-on_error _ _ (Keeps-authenticate_access memory-stable r)))
        (λ cred.
          Leads-known _ _ _ raw body_ok
            (Leads-known _ _ _ e meta_ok (Leads-accept_envelope lib cfg _ cred raw e m refl))))

  -- Without a repository, an envelope that the relay accepts reaches its recipient: as long as the
  -- envelope has not expired, and no more messages wait for the recipient than it asks for,
  -- dequeueMessages succeeds, and the envelope is among what it gives.
  pub dequeue_messages-envelopes :
      (r : Request) (raw : Bytes) (e : EnvelopeMeta) (s : State) (reply : Response) (now limit : ℕ)
      → s.repo ≡ none
      → decode_json lib.decode_raw r.body ≡ ok raw
      → decode_json lib.decode_meta raw ≡ ok e
      → (envelopes lib cfg r m s).1 ≡ next reply
      → now ≤ expires_at_of e m.now
      → let s' = (envelopes lib cfg r m s).0 in
        length (split_for e.domain_id e.recipient_device_id now s'.queue.messages).1 ≤ limit
        → (out : List Message) × ((dequeue_messages lib e.domain_id e.recipient_device_id now
              (pos limit)
              s').1
            ≡ next out)
          × Mem (stamp m.now (queued_message e raw m.now)) out
  unfolding queued_message stamp
  dequeue_messages-envelopes r raw e s reply now limit memory body_ok meta_ok accepted alive few =
      let x = stamp m.now (queued_message e raw m.now) in
      let s' = (envelopes lib cfg r m s).0 in
      dequeue_messages-Mem lib cfg x s' limit now
        ((Leads-envelopes r raw e body_ok meta_ok).to s memory reply accepted)
        (alive_lem _ now alive) (own x) few
