-- ===== src/Server/Queue/Delivery.antt =====
-- pkg/server/queue/queue.go: DequeueFor.
use mathlib.Core.List.{perm_append_comm, append_assoc, append-nil, perm_middle}
use mathlib.Core.List.Perm
use text.Mathlib.TextEquality.{eq_iff}
use native.Mathlib.Bridge.{le_prop}
use iscp.Prelude.{
  min, All-append, String-set, ℕ, zero, suc, ◌≤◌, String, ◌≡◌, refl, ap, true, false, ◌&&◌, List,
  [], ◌∷◌, ◌++◌, Perm, arith, ltb, length, take, drop, keep, All, string_eq, inl, inr, Bool-cases,
  take-append-drop, All-take, length-take,
}
use iscp.Prelude.Int.{ℤ, pos, negsuc, pos_part}
use iscp.Prelude.Sort.{SliceSort, IsOrdered, All-perm, length-perm}
use iscp.Server.Queue.{Message, Queue, is_live, is_for, split_for, before, cut, dequeue_for}

module _ (domain recipient : String) (now : ℕ) where
  split_for-perm :
      (ms : List Message)
      → let (kept, matches) = split_for domain recipient now ms in
        Perm (kept ++ matches) (keep (is_live now) ms)
  unfolding split_for
  split_for-perm [] = Perm.rfl
  split_for-perm (m ∷ ms) = elim (Bool-cases (ltb m.expires_at now)) [
    | inl dead ↦ rw (dead, split_for) (split_for-perm ms)
    | inr live ↦ elim (Bool-cases (is_for domain recipient m)) [
      | inl hit ↦
          rw (live, hit, split_for) (Perm.trans (perm_middle _ _) (Perm.cons m (split_for-perm ms)))
      | inr miss ↦ rw (live, miss, split_for) (Perm.cons m (split_for-perm ms))
    ]
  ]

  -- A message that the call may hand out.
  abbrev pub IsDue : Message → Type 0
  IsDue m = (m.domain_id ≡ domain) × (m.recipient_device_id ≡ recipient) × (now ≤ m.expires_at)

  split_for-IsDue : (ms : List Message) → All IsDue (split_for domain recipient now ms).1
  unfolding split_for
  split_for-IsDue [] = tt
  split_for-IsDue (m ∷ ms) =
      ground (
        arith,
        split_for-IsDue ms,
        eq_iff m.domain_id domain,
        eq_iff m.recipient_device_id recipient,
      )

  split_for-length :
      (ms : List Message)
      → length (split_for domain recipient now ms).1
        ≡ length (keep (λ m. is_live now m && is_for domain recipient m) ms)
  unfolding split_for
  split_for-length [] = refl
  split_for-length (m ∷ ms) = ground (arith, split_for-length ms)

  abbrev pub IsKept : Message → Message → Type 0
  IsKept x y = is_for domain recipient y ≡ true → before y x ≡ false

  split_for-IsKept :
      (x : Message) (ms : List Message) → All (IsKept x) (split_for domain recipient now ms).0
  unfolding split_for
  split_for-IsKept x [] = tt
  split_for-IsKept x (m ∷ ms) = ground (arith, split_for-IsKept x ms)

  IsAhead-IsKept :
      (x : Message) (ms : List Message) → All (λ y. before y x ≡ false) ms → All (IsKept x) ms
  IsAhead-IsKept x [] h = tt
  IsAhead-IsKept x (m ∷ ms) h = (λ _. h.0, IsAhead-IsKept x ms h.1)

cut-append : (limit : ℤ) (ms : List Message) → (cut limit ms).0 ++ (cut limit ms).1 ≡ ms
unfolding cut
cut-append (pos n) ms = ground (arith, take-append-drop n ms, append-nil ms)
cut-append (negsuc n) ms = ground (arith, append-nil ms)

-- What goes out is a front part of what was sorted.
cut-All : (P : Message → Type 0) (limit : ℤ) (ms : List Message) → All P ms → All P (cut limit ms).0
unfolding cut
cut-All P (pos n) ms h = ground (arith, All-take P n ms h)
cut-All P (negsuc n) ms h = ground arith

length-cut :
    (limit : ℤ) (ms : List Message) → length (cut limit ms).0 ≡ min (pos_part limit) (length ms)
unfolding cut
length-cut (pos zero) ms = ground arith
length-cut (pos (suc n)) ms = ground (arith, length-take (suc n) ms)
length-cut (negsuc n) ms = ground arith

-- No message of the second list goes before one of the first.
abbrev pub IsAhead : List Message → List Message → Type 0
IsAhead xs ys = All (λ x. All (λ y. before y x ≡ false) ys) xs

drop-All : (P : Message → Type 0) (n : ℕ) (ms : List Message) → All P ms → All P (drop n ms)
drop-All P zero ms h = h
drop-All P (suc n) [] h = tt
drop-All P (suc n) (m ∷ ms) h = drop-All P n ms h.1

take-IsAhead : (n : ℕ) (ms : List Message) → IsOrdered before ms → IsAhead (take n ms) (drop n ms)
take-IsAhead zero ms h = tt
take-IsAhead (suc n) [] h = tt
take-IsAhead (suc n) (m ∷ ms) h =
    (drop-All (λ y. before y m ≡ false) n ms h.0, take-IsAhead n ms h.1)

take-IsOrdered : (n : ℕ) (ms : List Message) → IsOrdered before ms → IsOrdered before (take n ms)
take-IsOrdered zero ms h = tt
take-IsOrdered (suc n) [] h = tt
take-IsOrdered (suc n) (m ∷ ms) h =
    (All-take (λ y. before y m ≡ false) n ms h.0, take-IsOrdered n ms h.1)

IsAhead-nil : (ms : List Message) → IsAhead ms []
IsAhead-nil [] = tt
IsAhead-nil (m ∷ ms) = (tt, IsAhead-nil ms)

cut-IsAhead :
    (limit : ℤ) (ms : List Message)
    → IsOrdered before ms
    → IsOrdered before (cut limit ms).0 × IsAhead (cut limit ms).0 (cut limit ms).1
unfolding cut
cut-IsAhead (pos zero) ms h = ground arith
cut-IsAhead (pos (suc n)) ms h =
    ground (arith, take-IsOrdered (suc n) ms h, take-IsAhead (suc n) ms h, IsAhead-nil ms)
cut-IsAhead (negsuc n) ms h = ground arith

module _ (sorter : SliceSort before) (domain recipient : String) (now : ℕ) (limit : ℤ)
    (q : Queue) where
  sorted_matches : List Message
  sorted_matches = sorter.sort (split_for domain recipient now q.messages).1

  -- DequeueFor neither loses nor repeats a message: what goes out and what stays is what was there
  -- and has not expired.
  pub dequeue_for-perm :
      let (q', out) = dequeue_for sorter domain recipient now limit q in
      Perm (out ++ q'.messages) (keep (is_live now) q.messages)
  unfolding dequeue_for sorted_matches
  dequeue_for-perm =
      let kept = (split_for domain recipient now q.messages).0 in
      let out = (cut limit sorted_matches).0 in
      let back = (cut limit sorted_matches).1 in
      Perm.trans (perm_append_comm out (kept ++ back)) (
        rw append_assoc (
          Perm.trans
            (Perm.append_left kept (
              Perm.trans (perm_append_comm back out)
                (rw (cut-append limit sorted_matches) (sorter.sort-perm _))))
            (split_for-perm domain recipient now q.messages)))

  -- Everything that goes out is addressed to the caller and has not expired.
  pub dequeue_for-IsDue :
      let (q', out) = dequeue_for sorter domain recipient now limit q in
      All (IsDue domain recipient now) out
  unfolding dequeue_for sorted_matches
  dequeue_for-IsDue = cut-All (IsDue domain recipient now) limit sorted_matches (
      All-perm (IsDue domain recipient now) (λ m. hlevel (le_prop, String-set))
        (Perm.symm (sorter.sort-perm _)) (split_for-IsDue domain recipient now q.messages))

  -- As many messages go out as the queue has live ones to the caller, or as the limit, if that is
  -- less; none if the limit is not positive.
  pub length-dequeue_for :
      length (dequeue_for sorter domain recipient now limit q).1
      ≡ min
          (pos_part limit)
          (length (keep (λ m. is_live now m && is_for domain recipient m) q.messages))
  unfolding dequeue_for sorted_matches
  length-dequeue_for =
      rw
        (
          length-cut limit sorted_matches,
          length-perm (sorter.sort-perm (split_for domain recipient now q.messages).1),
        )
        (ap (min (pos_part limit)) (split_for-length domain recipient now q.messages))

  append-IsKept :
      (xs kept back : List Message)
      → ((x : Message) → All (IsKept domain recipient now x) kept)
      → IsAhead xs back
      → All (λ x. All (IsKept domain recipient now x) (kept ++ back)) xs
  append-IsKept [] kept back k h = tt
  append-IsKept (x ∷ xs) kept back k h = (
    All-append (IsKept domain recipient now x) kept back (k x)
        (IsAhead-IsKept domain recipient now x back h.0),
    append-IsKept xs kept back k h.1,
  )

  -- What goes out is in the order of delivery, and no message to the caller that stays in the queue
  -- goes before one that went out.
  pub dequeue_for-IsOrdered :
      let (q', out) = dequeue_for sorter domain recipient now limit q in
      IsOrdered before out × All (λ x. All (IsKept domain recipient now x) q'.messages) out
  unfolding dequeue_for sorted_matches
  dequeue_for-IsOrdered =
      let split = split_for domain recipient now q.messages in
      let ordered = cut-IsAhead limit sorted_matches (sorter.sort-IsOrdered split.1) in
      (
        ordered.0,
        append-IsKept (cut limit sorted_matches).0 split.0 (cut limit sorted_matches).1
            (λ x. split_for-IsKept domain recipient now x q.messages) ordered.1,
      )
