-- ===== src/Server/Queue/Order.antt =====
-- pkg/server/queue/queue.go: the two orders that the queue sorts by, and a sort for each.
use iscp.Prelude.{ℕ, ◌≡◌, Bool, true, false, ltb, if◌then◌else◌, arith}
use iscp.Prelude.Int.{ℤ, pos, negsuc, ltb_ℤ, eqb_ℤ}
use iscp.Prelude.Sort.{SliceSort, insertion_sort, insertion_sort-perm, insertion_sort-IsOrdered}
use iscp.Server.Queue.{Message, MessageMetadata, before, metadata_before}

abbrev pub goes_before : ℤ → ℕ → ℤ → ℕ → Bool
goes_before a s b t = if eqb_ℤ a b then ltb s t else ltb_ℤ b a

pub goes_before-asym :
    (a b : ℤ) (s t : ℕ) → goes_before a s b t ≡ true → goes_before b t a s ≡ false
goes_before-asym (pos a) (pos b) s t h = ground arith
goes_before-asym (pos a) (negsuc b) s t h = ground arith
goes_before-asym (negsuc a) (pos b) s t h = ground arith
goes_before-asym (negsuc a) (negsuc b) s t h = ground arith

pub goes_before_trans :
    (a b c : ℤ) (s t u : ℕ)
    → goes_before b t a s ≡ false
    → goes_before c u b t ≡ false
    → goes_before c u a s ≡ false
goes_before_trans (pos a) (pos b) (pos c) s t u h k = ground arith
goes_before_trans (pos a) (pos b) (negsuc c) s t u h k = ground arith
goes_before_trans (pos a) (negsuc b) (pos c) s t u h k = ground arith
goes_before_trans (pos a) (negsuc b) (negsuc c) s t u h k = ground arith
goes_before_trans (negsuc a) (pos b) (pos c) s t u h k = ground arith
goes_before_trans (negsuc a) (pos b) (negsuc c) s t u h k = ground arith
goes_before_trans (negsuc a) (negsuc b) (pos c) s t u h k = ground arith
goes_before_trans (negsuc a) (negsuc b) (negsuc c) s t u h k = ground arith

before-asym : (x y : Message) → before x y ≡ true → before y x ≡ false
unfolding before
before-asym x y = goes_before-asym x.priority y.priority x.queued_at y.queued_at

before_trans : (x y z : Message) → before y x ≡ false → before z y ≡ false → before z x ≡ false
unfolding before
before_trans x y z =
    goes_before_trans x.priority y.priority z.priority x.queued_at y.queued_at z.queued_at

metadata_before-asym :
    (x y : MessageMetadata) → metadata_before x y ≡ true → metadata_before y x ≡ false
unfolding metadata_before
metadata_before-asym x y = goes_before-asym x.priority y.priority x.queued_at y.queued_at

metadata_before_trans :
    (x y z : MessageMetadata)
    → metadata_before y x ≡ false
    → metadata_before z y ≡ false
    → metadata_before z x ≡ false
unfolding metadata_before
metadata_before_trans x y z =
    goes_before_trans x.priority y.priority z.priority x.queued_at y.queued_at z.queued_at

pub sorter : SliceSort before
sorter = record {
  sort = insertion_sort before;
  sort-perm = insertion_sort-perm before;
  sort-IsOrdered = insertion_sort-IsOrdered before before-asym before_trans;
}

pub lister : SliceSort metadata_before
lister = record {
  sort = insertion_sort metadata_before;
  sort-perm = insertion_sort-perm metadata_before;
  sort-IsOrdered =
      insertion_sort-IsOrdered metadata_before metadata_before-asym metadata_before_trans;
}
