-- ===== src/Server/Queue/Bounds.antt =====
-- pkg/server/queue/queue.go: the byte account of the queue, and Enqueue and SnapshotMetadata.
use iscp.Prelude.{
  ◌↔◌, ℕ, ◌+◌, ◌≤◌, String, ◌≡◌, refl, Bool, true, List, [], ◌∷◌, ◌++◌, Perm, map, arith,
  if◌then◌else◌, keep, string_eq, nat_eq,
}
use iscp.Prelude.Int.{ℤ, pos, pos_part, ◌≤ℤ◌}
use iscp.Prelude.Sort.{SliceSort, sum_by, sum_by-append, sum_by-perm, IsOrdered}
use iscp.Server.Queue.{
  Message, Queue, new, size_of, is_live, before, metadata_before, enqueue, dequeue_for, stamp,
  snapshot_metadata, drop_expired_locked, used_bytes, metadata,
}
use iscp.Server.Queue.Delivery.{dequeue_for-perm}

-- The account is right, and within the limit.
pub record IsValid (q : Queue) : Type 0 where
  pub counted : q.current_bytes ≡ sum_by size_of q.messages
  pub bounded : q.current_bytes ≤ pos_part q.max_bytes

sum_by-keep :
    (p : Message → Bool) (ms : List Message) → sum_by size_of (keep p ms) ≤ sum_by size_of ms
unfolding sum_by
sum_by-keep p [] = omega arith
sum_by-keep p (m ∷ ms) = ground (arith, sum_by-keep p ms)

pub new-IsValid : (max_bytes : ℤ) → IsValid (new max_bytes)
unfolding new sum_by
new-IsValid max_bytes = ground arith

drop_expired_locked-IsValid :
    (now : ℕ) (q : Queue) → IsValid q → IsValid (drop_expired_locked now q)
unfolding drop_expired_locked
drop_expired_locked-IsValid now q v = record {
  counted = refl;
  bounded = omega (arith, sum_by-keep (is_live now) q.messages, v.counted, v.bounded);
}

sum_by-snoc :
    (ms : List Message) (m : Message) (now : ℕ)
    → sum_by size_of (ms ++ stamp now m ∷ []) ≡ sum_by size_of ms + size_of m
unfolding stamp sum_by
sum_by-snoc ms m now = ground (arith, sum_by-append size_of ms (stamp now m ∷ []))

enqueue-IsValid : (m : Message) (now : ℕ) (q : Queue) → IsValid q → IsValid (enqueue m now q).0
unfolding enqueue
enqueue-IsValid m now q v = ground (
  arith,
  drop_expired_locked-IsValid now q v,
  sum_by-snoc (drop_expired_locked now q).messages m now,
)

-- A message gets in exactly when it fits beside the live messages, and the queue then holds those
-- and the message; otherwise it holds those alone.
pub enqueue-exact :
    (m : Message) (now : ℕ) (q : Queue)
    → let live = keep (is_live now) q.messages in
      let (q', accepted) = enqueue m now q in
      ((accepted ≡ true) ↔ (pos (sum_by size_of live + size_of m) ≤ℤ q.max_bytes))
      × (q'.messages ≡ (if accepted then live ++ stamp now m ∷ [] else live))
      × (used_bytes q'
          ≡ (if accepted then sum_by size_of live + size_of m else sum_by size_of live))
unfolding enqueue used_bytes
enqueue-exact m now q = ground arith

sum_by-dequeue_for :
    (sorter : SliceSort before) (domain recipient : String) (now : ℕ) (limit : ℤ) (q : Queue)
    → sum_by size_of (dequeue_for sorter domain recipient now limit q).0.messages
      ≤ sum_by size_of q.messages
sum_by-dequeue_for sorter domain recipient now limit q =
    let (q', out) = dequeue_for sorter domain recipient now limit q in
    omega (
      arith,
      sum_by-append size_of out q'.messages,
      sum_by-perm size_of (dequeue_for-perm sorter domain recipient now limit q),
      sum_by-keep (is_live now) q.messages,
    )

module _ (sorter : SliceSort before) (domain recipient : String) (now : ℕ) (limit : ℤ)
    (q : Queue) where
  dequeue_for-counted :
      let (q', out) = dequeue_for sorter domain recipient now limit q in
      (q'.current_bytes ≡ sum_by size_of q'.messages) × (q'.max_bytes ≡ q.max_bytes)
  unfolding dequeue_for
  dequeue_for-counted = (refl, refl)

  dequeue_for-IsValid : IsValid q → IsValid (dequeue_for sorter domain recipient now limit q).0
  dequeue_for-IsValid v = record {
    counted = dequeue_for-counted.0;
    bounded =
        rw (dequeue_for-counted.0, dequeue_for-counted.1)
          (omega
            (arith, sum_by-dequeue_for sorter domain recipient now limit q, v.counted, v.bounded));
  }

-- The methods that change the queue.
pub data Call : Type 0 where
  enqueues : Message → Call
  dequeues : String → String → ℤ → Call
  snapshots : Call

module _ (sorter : SliceSort before) (lister : SliceSort metadata_before) where
  unfoldable pub call : Queue → ℕ × Call → Queue
  call q (now, enqueues m) = (enqueue m now q).0
  call q (now, dequeues domain recipient limit) =
      (dequeue_for sorter domain recipient now limit q).0
  call q (now, snapshots) = (snapshot_metadata lister now q).0

  unfoldable pub run : Queue → List (ℕ × Call) → Queue
  unfolding call
  run q [] = q
  run q (c ∷ cs) = run (call q c) cs

  pub call-IsValid : (q : Queue) (c : ℕ × Call) → IsValid q → IsValid (call q c)
  unfolding call snapshot_metadata
  call-IsValid q (now, enqueues m) v = enqueue-IsValid m now q v
  call-IsValid q (now, dequeues domain recipient limit) v =
      dequeue_for-IsValid sorter domain recipient now limit q v
  call-IsValid q (now, snapshots) v = drop_expired_locked-IsValid now q v

  run-IsValid : (q : Queue) (cs : List (ℕ × Call)) → IsValid q → IsValid (run q cs)
  unfolding run
  run-IsValid q [] v = v
  run-IsValid q (c ∷ cs) v = run-IsValid (call q c) cs (call-IsValid q c v)

  -- Whatever is called and whenever, the account of a queue that started empty is the sum of the
  -- sizes of its messages, and never passes the limit.
  pub run-new-IsValid : (max_bytes : ℤ) (cs : List (ℕ × Call)) → IsValid (run (new max_bytes) cs)
  run-new-IsValid max_bytes cs = run-IsValid (new max_bytes) cs (new-IsValid max_bytes)

-- The overview lists each live message once, in the order of delivery, and leaves those in place.
pub snapshot_metadata-perm :
    (lister : SliceSort metadata_before) (now : ℕ) (q : Queue)
    → let (q', listed) = snapshot_metadata lister now q in
      Perm listed (map metadata (keep (is_live now) q.messages))
      × IsOrdered metadata_before listed
      × (q'.messages ≡ keep (is_live now) q.messages)
unfolding snapshot_metadata
snapshot_metadata-perm lister now q = (lister.sort-perm _, lister.sort-IsOrdered _, refl)
