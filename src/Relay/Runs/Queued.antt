-- ===== src/Relay/Runs/Queued.antt =====
-- services/relay-reference/internal/relay/server.go: what stands in the queue of the relay, under all
-- requests.
use mathlib.Core.List.Perm
use native.Mathlib.Bridge.{le_prop}
use iscp.Prelude.{
  ℕ, ◌+◌, ◌≤◌, ◌≡◌, refl, String-set, Bytes, Bool, true, false, Option, List, [], ◌∷◌, ◌++◌, All,
  All-append, keep, if◌then◌else◌, is_blank, string_eq, nat_eq, arith,
}
use iscp.Prelude.Int.{pos, ◌≤ℤ◌}
use iscp.Prelude.Sort.{All-perm, sum_by}
use iscp.Errors.{ok}
use iscp.Repository.Relay.{RelayDatabase}
use iscp.Server.Queue.{
  Message, Queue, is_live, enqueue, stamp, dequeue_for, snapshot_metadata, used_bytes, size_of, new,
}
use iscp.Server.Queue.Bounds.{enqueue-exact, snapshot_metadata-perm}
use iscp.Server.Queue.Delivery.{dequeue_for-perm}
use iscp.Relay.{Config, State, Moment, Library, EnvelopeMeta, new_state, seconds}
use iscp.Relay.Credentials.{revoke_held, revoke_all, retire_expired, keep_credentials}
use iscp.Relay.Registration.{hold_device}
use iscp.Relay.Delivery.{validate_envelope_meta, queued_message, expires_at_of}
use iscp.Relay.Delivery.Bounds.{validate_envelope_meta_iff}
use iscp.Relay.Stability.{IsStable}
use iscp.Relay.Runs.{Call, run, run-kept, All-tt, run-HasValidQueue}

-- A message of the relay's domain that names itself, its sender and its recipient, has a priority of
-- 0 to 9, and lives for at least a second and at most a day after it was queued.
abbrev pub IsVetted : Config → Message → Type 0
IsVetted cfg x =
    (x.domain_id ≡ cfg.domain_id)
    × (is_blank x.message_id ≡ false)
    × (is_blank x.sender_device_id ≡ false)
    × (is_blank x.recipient_device_id ≡ false)
    × (pos 0 ≤ℤ x.priority)
    × (x.priority ≤ℤ pos 9)
    × (x.queued_at + seconds 1 ≤ x.expires_at)
    × (x.expires_at ≤ x.queued_at + seconds 86400)

abbrev pub HasVetted : Config → State → Type 0
HasVetted cfg s = All (IsVetted cfg) s.queue.messages

module _ {A : Type 0} (P : A → Type 0) (p : A → Bool) where
  All-keep : (xs : List A) → All P xs → All P (keep p xs)
  All-keep [] h = h
  All-keep (x ∷ xs) h = ground (arith, All-keep xs h.1)

module _ {A : Type 0} (P : A → Type 0) where
  All-right : (xs ys : List A) → All P (xs ++ ys) → All P ys
  All-right [] ys h = h
  All-right (x ∷ xs) ys h = All-right xs ys h.1

module _ (cfg : Config) where
  stamp-IsVetted :
      (e : EnvelopeMeta) (raw : Bytes) (now : ℕ)
      → validate_envelope_meta cfg e ≡ ok tt
      → IsVetted cfg (stamp now (queued_message e raw now))
  unfolding stamp queued_message expires_at_of
  stamp-IsVetted e raw now valid =
      let (a, b, c, d, t, u, v, w) = (validate_envelope_meta_iff cfg e).0 valid in
      (a, b, c, d, v, w, ground arith, ground arith)

  enqueue-IsVetted :
      (x : Message) (now : ℕ) (q : Queue)
      → IsVetted cfg (stamp now x)
      → All (IsVetted cfg) q.messages
      → All (IsVetted cfg) (enqueue x now q).0.messages
  enqueue-IsVetted x now q vetted h =
      let live = All-keep (IsVetted cfg) (is_live now) q.messages h in
      rw (enqueue-exact x now q).1
        (if_IsVetted (enqueue x now q).1 _ _ (All-append (IsVetted cfg) _ _ live (vetted, tt)) live)
    where
      if_IsVetted :
          (b : Bool) (xs ys : List Message)
          → All (IsVetted cfg) xs
          → All (IsVetted cfg) ys
          → All (IsVetted cfg) (if b then xs else ys)
      if_IsVetted true xs ys h k = h
      if_IsVetted false xs ys h k = k

module _ (lib : Library) (cfg : Config) (m : Moment) where
  HasVetted-stable : IsStable lib cfg m (HasVetted cfg)
  unfolding retire_expired hold_device revoke_held revoke_all keep_credentials
  HasVetted-stable = record {
    quiet = record { repo = λ s old db e p. p; replay = λ s key expires_at p. p };
    limiter = λ s key p. p;
    enqueued = λ s raw e valid p.
        enqueue-IsVetted cfg _ m.now s.queue (stamp-IsVetted cfg e raw m.now valid) p;
    dequeued = λ s domain_id recipient limit p. All-right (IsVetted cfg) _ _ (
        All-perm (IsVetted cfg) (λ x. hlevel (le_prop, String-set))
          (Perm.symm (dequeue_for-perm lib.sorter domain_id recipient m.now limit s.queue))
          (All-keep (IsVetted cfg) (is_live m.now) s.queue.messages p));
    listed = λ s p.
        rw (snapshot_metadata-perm lib.lister m.now s.queue).2
          (All-keep (IsVetted cfg) (is_live m.now) s.queue.messages p);
    retired = λ s hash p. p;
    spent = λ s hash p. p;
    expelled = λ s device_id p. p;
    issued = λ s domain_id device_id p. p;
    held = λ s id p. p;
    consumed = λ s ticket_id max_uses p. p;
    connected = λ s connections p. p;
  }

HasLimit : State → Type 0
HasLimit s = s.queue.max_bytes ≡ pos 1048576

enqueue-max_bytes :
    (x : Message) (now : ℕ) (q : Queue) → (enqueue x now q).0.max_bytes ≡ q.max_bytes
unfolding enqueue
enqueue-max_bytes x now q = ground arith

HasLimit-stable : (lib : Library) (cfg : Config) (m : Moment) → IsStable lib cfg m HasLimit
unfolding HasLimit dequeue_for snapshot_metadata retire_expired hold_device revoke_held revoke_all
    keep_credentials
HasLimit-stable lib cfg m = record {
  quiet = record { repo = λ s old db e p. p; replay = λ s key expires_at p. p };
  limiter = λ s key p. p;
  enqueued = λ s raw e valid p. rw (enqueue-max_bytes (queued_message e raw m.now) m.now s.queue) p;
  dequeued = λ s domain_id recipient limit p. p;
  listed = λ s p. p;
  retired = λ s hash p. p;
  spent = λ s hash p. p;
  expelled = λ s device_id p. p;
  issued = λ s domain_id device_id p. p;
  held = λ s id p. p;
  consumed = λ s ticket_id max_uses p. p;
  connected = λ s connections p. p;
}

-- Whatever the requests are, every message in the relay's queue is of the relay's domain, names
-- itself, its sender and its recipient, has a priority of 0 to 9 and lives for one second to one day
-- after it was queued; and the byte account of the queue is the sum of the sizes of its messages, at
-- most 1048576.
pub run-IsVetted :
    (lib : Library) (cfg : Config) (repo : Option RelayDatabase) (cs : List Call)
    → let q = (run lib cfg cs (new_state repo)).queue in
      All (IsVetted cfg) q.messages
      × (used_bytes q ≡ sum_by size_of q.messages)
      × (used_bytes q ≤ 1048576)
unfolding new_state new used_bytes HasLimit
run-IsVetted lib cfg repo cs =
    let s = new_state repo in
    let valid = run-HasValidQueue lib cfg repo cs in
    let limit =
      run-kept HasLimit (λ m. Unit) (λ m h. HasLimit-stable lib cfg m) cs s (All-tt cs) refl in
    (
      run-kept (HasVetted cfg) (λ m. Unit) (λ m h. HasVetted-stable lib cfg m) cs s (All-tt cs) tt,
      valid.counted,
      ground (arith, valid.bounded, limit),
    )
