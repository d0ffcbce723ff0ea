-- ===== src/Examples/Servers.antt =====
-- The relay's and the trust root's components at work.
use iscp.Prelude.{
  ℕ, ◌+◌, ◌≤◌, ◌≡◌, refl, String, true, false, some, [], ◌∷◌, ◌++◌, Perm, keep, All, nat_eq,
  string_eq, if◌then◌else◌, ◌↔◌, arith,
}
use iscp.Prelude.Map
use iscp.Prelude.Map.{Map, get-put, get-empty}
use iscp.Prelude.Int.{ℤ, pos, ◌≤ℤ◌}
use iscp.Prelude.Sort.{sum_by, IsOrdered}
use iscp.Errors.{ok}
use iscp.Server.Queue.{
  Message, Queue, new, size_of, is_live, before, stamp, enqueue, dequeue_for, used_bytes,
}
use iscp.Server.Queue.Delivery.{IsKept, dequeue_for-perm, dequeue_for-IsOrdered}
use iscp.Server.Queue.Bounds.{
  IsValid, enqueues, dequeues, snapshots, run, run-new-IsValid, enqueue-exact,
}
use iscp.Server.Queue.Order.{sorter, lister}
use iscp.Server.RateLimit.{Counter, Limiter, allow, current, or_zero}
use iscp.Server.RateLimit.Window.{admitted, admitted-le-limit}
use iscp.Server.Replay.{Cache, new_cache, is_held, use_key}
use iscp.Server.Replay.Uses.{use_key-exact, use_key-replay}
use iscp.Server.Keyring.{State, active, Key, Ring, add, rotate, active_key, get_key, retire}
use iscp.Server.Keyring.Rotation.{HasOneActive, active_key-rotate}
use iscp.Provisioning.Store.{new_ticket_store, consumed, consumed-le-max_uses}

abbrev message : String → ℤ → ℕ → Message
message id priority expires_at = record {
  domain_id = "home";
  message_id = id;
  sender_device_id = "phone";
  recipient_device_id = "lamp";
  envelope = 1 ∷ 2 ∷ [];
  priority = priority;
  expires_at = expires_at;
  queued_at = 1;
}

abbrev two : Queue
two = record {
  messages = message "a" (pos 1) 9 ∷ message "b" (pos 2) 9 ∷ message "c" (pos 3) 4 ∷ [];
  max_bytes = pos 10;
  current_bytes = 6;
}

run-new-IsValid_example : IsValid (
    run sorter lister (new (pos 3)) (
      (0, enqueues (message "a" (pos 1) 9))
      ∷ (1, enqueues (message "b" (pos 1) 9))
      ∷ (2, dequeues "home" "lamp" (pos 1))
      ∷ (3, snapshots)
      ∷ []))
run-new-IsValid_example = run-new-IsValid sorter lister (pos 3) (
    (0, enqueues (message "a" (pos 1) 9))
    ∷ (1, enqueues (message "b" (pos 1) 9))
    ∷ (2, dequeues "home" "lamp" (pos 1))
    ∷ (3, snapshots)
    ∷ [])

dequeue_for-perm_example :
    let (q', out) = dequeue_for sorter "home" "lamp" 5 (pos 1) two in
    Perm (out ++ q'.messages) (keep (is_live 5) two.messages)
dequeue_for-perm_example = dequeue_for-perm sorter "home" "lamp" 5 (pos 1) two

dequeue_for-IsOrdered_example :
    let (q', out) = dequeue_for sorter "home" "lamp" 5 (pos 1) two in
    IsOrdered before out × All (λ x. All (IsKept "home" "lamp" 5 x) q'.messages) out
dequeue_for-IsOrdered_example = dequeue_for-IsOrdered sorter "home" "lamp" 5 (pos 1) two

enqueue-exact_example :
    let live = keep (is_live 5) two.messages in
    let m = message "d" (pos 1) 9 in
    let (q', accepted) = enqueue m 5 two in
    ((accepted ≡ true) ↔ (pos (sum_by size_of live + size_of m) ≤ℤ two.max_bytes))
    × (q'.messages ≡ (if accepted then live ++ stamp 5 m ∷ [] else live))
    × (used_bytes q' ≡ (if accepted then sum_by size_of live + size_of m else sum_by size_of live))
enqueue-exact_example = enqueue-exact (message "d" (pos 1) 9) 5 two

abbrev fresh_limiter : Limiter
fresh_limiter = iscp.Server.RateLimit.new (pos 2) 60

admitted-le-limit_example :
    admitted "a" fresh_limiter (("a", 5) ∷ ("a", 6) ∷ ("b", 6) ∷ ("a", 65) ∷ []) ≤ 2
admitted-le-limit_example =
    admitted-le-limit (pos 2) 60 "a" 5 (("a", 6) ∷ ("b", 6) ∷ ("a", 65) ∷ []) (omega arith)
      (omega arith, (omega arith, (omega arith, tt)))

first_use : (use_key "n" 50 10 new_cache).1 ≡ true
unfolding new_cache
first_use = rw ((use_key-exact "n" 50 10 new_cache).0, get-empty {K = String} {V = ℕ} "n") refl

use_key-replay_example :
    (use_key "n" 90 40
      (iscp.Server.Replay.Uses.run (use_key "n" 50 10 new_cache).0 (("m", 60, 30) ∷ []))).1
    ≡ false
use_key-replay_example =
    use_key-replay "n" 50 10 new_cache (("m", 60, 30) ∷ []) 90 40 first_use (omega arith, tt)
      (omega arith)

abbrev waiting : Key
waiting = record { id = "k"; state = State.next; private = []; public = 1 ∷ [] }

abbrev old_ring : Ring
old_ring = add Map.empty (record { id = "j"; state = active; private = []; public = 2 ∷ [] })

abbrev ring : Ring
ring = add old_ring waiting

ring-waiting : Map.get ring "k" ≡ some waiting
unfolding add
ring-waiting = get-put old_ring "k" "k" waiting

rotated : (r : Ring) × (rotate ring "k" ≡ ok r)
unfolding rotate
rotated = (
  Map.put (Map.map_values retire ring) "k" (record waiting { state = active }),
  ground (arith, ring-waiting),
)

active_key-rotate_example :
    HasOneActive rotated.0
    × ((key : Key) × (Map.get ring "k" ≡ some key)
        × (active_key rotated.0 ≡ ok (record key { state = active })))
active_key-rotate_example = active_key-rotate ring rotated.0 "k" rotated.1

ring-got : get_key ring "k" ≡ ok waiting
unfolding get_key
ring-got = ground (arith, ring-waiting)

consumed-le-max_uses_example :
    consumed "t" new_ticket_store (("t", pos 1) ∷ ("t", pos 9) ∷ ("u", pos 2) ∷ []) ≤ 1
unfolding new_ticket_store
consumed-le-max_uses_example =
    consumed-le-max_uses "t" 0 new_ticket_store (("t", pos 9) ∷ ("u", pos 2) ∷ []) (get-empty "t")
      (get-empty "t")
