-- ===== src/Server/Queue.antt =====
-- pkg/server/queue/queue.go: the relay's in-memory message queue, bounded in bytes. Each method takes
-- the queue and gives back the new one; the mutex makes a method one step.
pub mod Delivery
pub mod Bounds
pub mod Order
use iscp.Prelude.{
  ℕ, ◌+◌, String, Bool, true, false, not, ◌&&◌, ◌||◌, List, [], ◌∷◌, ◌++◌, map, ltb, ◌==◌,
  if◌then◌else◌, length, take, drop, keep, string_eq, nat_eq, Bytes,
}
use iscp.Prelude.Int.{ℤ, pos, pos_part, ltb_ℤ, leb_ℤ, eqb_ℤ}
use iscp.Prelude.Sort.{SliceSort, sum_by}

-- Times are nanoseconds since Go's zero time.
pub record Message : Type 0 where
  pub domain_id : String
  pub message_id : String
  pub sender_device_id : String
  pub recipient_device_id : String
  pub envelope : Bytes
  pub priority : ℤ
  pub expires_at : ℕ
  pub queued_at : ℕ

pub record MessageMetadata : Type 0 where
  pub domain_id : String
  pub message_id : String
  pub sender_device_id : String
  pub recipient_device_id : String
  pub priority : ℤ
  pub queued_at : ℕ
  pub expires_at : ℕ

pub record Queue : Type 0 where
  pub messages : List Message
  pub max_bytes : ℤ
  pub current_bytes : ℕ

unfoldable pub new : ℤ → Queue
new max_bytes = record { messages = []; max_bytes = max_bytes; current_bytes = 0 }

abbrev pub size_of : Message → ℕ
size_of m = length m.envelope

-- !now.After(msg.ExpiresAt)
abbrev pub is_live : ℕ → Message → Bool
is_live now m = not (ltb m.expires_at now)

unfoldable pub recalculate_bytes_locked : Queue → Queue
recalculate_bytes_locked q = record q { current_bytes = sum_by size_of q.messages }

unfoldable pub drop_expired_locked : ℕ → Queue → Queue
unfolding recalculate_bytes_locked
drop_expired_locked now q =
    recalculate_bytes_locked (record q { messages = keep (is_live now) q.messages })

-- A zero time of queueing stands for "not set".
unfoldable pub stamp : ℕ → Message → Message
stamp now m = if m.queued_at == 0 then record m { queued_at = now } else m

fits : ℕ → Queue → Bool
fits size q = not (ltb_ℤ q.max_bytes (pos size) || ltb_ℤ q.max_bytes (pos (q.current_bytes + size)))

admit : Message → Queue → Queue
admit m q = record q {
  messages = q.messages ++ m ∷ [];
  current_bytes = q.current_bytes + size_of m;
}

unfoldable pub enqueue : Message → ℕ → Queue → Queue × Bool
unfolding drop_expired_locked stamp fits admit
enqueue m now q =
    let q' = drop_expired_locked now q in
    if fits (size_of m) q' then (admit (stamp now m) q', true) else (q', false)

abbrev pub is_for : String → String → Message → Bool
is_for domain recipient m = m.domain_id == domain && m.recipient_device_id == recipient

-- The loop of DequeueFor: what it keeps and what it matches.
unfoldable pub split_for : String → String → ℕ → List Message → List Message × List Message
split_for domain recipient now [] = ([], [])
split_for domain recipient now (m ∷ ms) =
    let (kept, matches) = split_for domain recipient now ms in
    if is_live now m
    then (if is_for domain recipient m then (kept, m ∷ matches) else (m ∷ kept, matches))
    else (kept, matches)

-- The order of delivery: the higher priority first, then the older message.
unfoldable pub before : Message → Message → Bool
before a b =
    if eqb_ℤ a.priority b.priority then ltb a.queued_at b.queued_at else ltb_ℤ b.priority a.priority

unfoldable pub metadata_before : MessageMetadata → MessageMetadata → Bool
metadata_before a b =
    if eqb_ℤ a.priority b.priority then ltb a.queued_at b.queued_at else ltb_ℤ b.priority a.priority

-- What goes out and what goes back, of the sorted matches.
unfoldable pub cut : ℤ → List Message → List Message × List Message
cut limit matches =
    if leb_ℤ limit (pos 0)
    then ([], matches)
    else if ltb_ℤ limit (pos (length matches))
    then (take (pos_part limit) matches, drop (pos_part limit) matches)
    else (matches, [])

module _ (sorter : SliceSort before) where
  unfoldable pub dequeue_for : String → String → ℕ → ℤ → Queue → Queue × List Message
  unfolding split_for cut recalculate_bytes_locked
  dequeue_for domain recipient now limit q =
      let (kept, matches) = split_for domain recipient now q.messages in
      let (out, back) = cut limit (sorter.sort matches) in
      (recalculate_bytes_locked (record q { messages = kept ++ back }), out)

unfoldable pub metadata : Message → MessageMetadata
metadata m = record {
  domain_id = m.domain_id;
  message_id = m.message_id;
  sender_device_id = m.sender_device_id;
  recipient_device_id = m.recipient_device_id;
  priority = m.priority;
  queued_at = m.queued_at;
  expires_at = m.expires_at;
}

module _ (sorter : SliceSort metadata_before) where
  unfoldable pub snapshot_metadata : ℕ → Queue → Queue × List MessageMetadata
  unfolding drop_expired_locked metadata
  snapshot_metadata now q =
      let q' = drop_expired_locked now q in (q', sorter.sort (map metadata q'.messages))

unfoldable pub used_bytes : Queue → ℕ
used_bytes q = q.current_bytes
