-- ===== src/Batcher/Whole.antt =====
-- pipeline/batcher.py: enqueue_many, and a batcher filled and drained.
use native.Mathlib.Nat.{le_trans, le_refl}
use mathlib.Core.List.{Perm, append-nil, perm_middle}
use mathlib.Core.List.Perm
use inference_forge.Base.{
  ℕ, ◌+◌, ◌≤◌, ◌≡◌, refl, ◌∙◌, ap, List, [], ◌∷◌, ◌++◌, map, length, keep, All, All-append, All-map,
  arith,
}
use inference_forge.Base.Perms.{All-Perm, length-keep-Perm}
use inference_forge.Text.{Text}
use inference_forge.Estimator.{Complexity, simple, medium, complex, complexity_priority, breakdown}
use inference_forge.Estimator.Laws.{breakdown-classify_many, in_bucket}
use inference_forge.Batcher.{
  Batch, Items, PriorityQueue, Batcher, prioritized, put_all, enqueue_many, drain_all_batches,
}
use inference_forge.Batcher.Collect.{IsPrioritized, IsPrioritized-prop, of_complexity, AtLeast}
use inference_forge.Batcher.Drained.{Entry, entry, IsReady, Drained}
use inference_forge.Batcher.Rounds.{
  Rounds, done, round, drain_from-Rounds, Rounds-perm, Rounds-IsHomogeneous, Rounds-count,
  first_item, all_entries, IsUrgentFirst, IsHomogeneous, batches_for, count_of,
}

-- The tickets with their positions, from `i` on.
abbrev pub enumerate : ℕ → List Text → List Entry
enumerate i [] = []
enumerate i (t ∷ ts) = (t, i) ∷ enumerate (i + 1) ts

abbrev pub empty : Batcher
empty = record { queue = []; queue_depth = 0 }

-- What the loop of enqueue_many puts.
items_of : ℕ → List Text → Items
items_of i [] = []
items_of i (t ∷ ts) = prioritized t i ∷ items_of (i + 1) ts

items_of-IsPrioritized : (i : ℕ) (ts : List Text) → All IsPrioritized (items_of i ts)
unfolding items_of
items_of-IsPrioritized i [] = tt
items_of-IsPrioritized i (t ∷ ts) =
    (record { ranked = refl; classified = refl }, items_of-IsPrioritized (i + 1) ts)

map-items_of : (i : ℕ) (ts : List Text) → map entry (items_of i ts) ≡ enumerate i ts
unfolding items_of
map-items_of i [] = refl
map-items_of i (t ∷ ts) = ap (λ l. (t, i) ∷ l) (map-items_of (i + 1) ts)

count_of-items_of :
    (c : Complexity) (i : ℕ) (ts : List Text)
    → count_of c (items_of i ts) ≡ length (keep (in_bucket c) ts)
unfolding items_of
count_of-items_of c i [] = refl
count_of-items_of c i (t ∷ ts) = ground (arith, count_of-items_of c (i + 1) ts)

module _ (pq : PriorityQueue) where
  open pq use {put, IsHeap, nil-IsHeap, put-IsHeap, put-perm}

  Rounds-floor :
      {b b' : Batcher} {bs : List Batch} (p : ℕ)
      → All IsPrioritized b.queue
      → AtLeast p b.queue
      → Rounds pq b bs b'
      → All (λ c. p ≤ complexity_priority c.complexity) bs
  Rounds-floor p h a (done e) = tt
  Rounds-floor p h a (round {b = b} {b1 = b1} {batch = batch} d r) =
      (first_item pq b b1 batch p h a d, Rounds-floor p d.ready.prioritized (rest d) r)
    where
      rest : Drained pq b batch b1 → AtLeast p b1.queue
      rest d = All-map _ _ b1.queue (λ x l. le_trans (first_item pq b b1 batch p h a d) l) d.urgent

  Rounds-IsUrgentFirst : {b b' : Batcher} {bs : List Batch} → Rounds pq b bs b' → IsUrgentFirst bs
  Rounds-IsUrgentFirst (done e) = tt
  Rounds-IsUrgentFirst (round {batch = batch} d r) = (
    Rounds-floor (complexity_priority batch.complexity) d.ready.prioritized d.urgent r,
    Rounds-IsUrgentFirst r,
  )

  put_all-IsHeap : (i : ℕ) (ts : List Text) (q : Items) → IsHeap q → IsHeap (put_all pq i ts q)
  unfolding put_all
  put_all-IsHeap i [] q h = h
  put_all-IsHeap i (t ∷ ts) q h = put_all-IsHeap (i + 1) ts _ (put-IsHeap _ q h)

  put_all-perm :
      (i : ℕ) (ts : List Text) (q : Items) → Perm (put_all pq i ts q) (q ++ items_of i ts)
  unfolding put_all items_of
  put_all-perm i [] q = rw append-nil (Perm.refl q)
  put_all-perm i (t ∷ ts) q =
      Perm.trans (put_all-perm (i + 1) ts _)
        (Perm.trans (Perm.append_right _ (put-perm _ q)) (Perm.symm (perm_middle q _)))

  pub enqueue_many-IsReady :
      (ts : List Text) (i : ℕ) (b : Batcher) → IsReady pq b → IsReady pq (enqueue_many pq ts i b)
  unfolding enqueue_many
  enqueue_many-IsReady ts i b h = record {
    heap = put_all-IsHeap i ts b.queue h.heap;
    prioritized =
        All-Perm _ IsPrioritized-prop (Perm.symm (put_all-perm i ts b.queue))
          (All-append _ b.queue _ h.prioritized (items_of-IsPrioritized i ts));
    depth_shows = refl;
  }

  empty-IsReady : IsReady pq empty
  empty-IsReady = record { heap = nil-IsHeap; prioritized = tt; depth_shows = refl }

  abbrev pub filled : List Text → Batcher
  filled ts = enqueue_many pq ts 0 empty

  abbrev pub drained : List Text → List Batch × Batcher
  drained ts = drain_all_batches pq (filled ts)

  drained-Rounds : (ts : List Text) → Rounds pq (filled ts) (drained ts).0 (drained ts).1
  unfolding drain_all_batches
  drained-Rounds ts =
      drain_from-Rounds pq (length (filled ts).queue) (filled ts)
        (enqueue_many-IsReady ts 0 empty empty-IsReady) (le_refl _)

  filled-perm : (ts : List Text) → Perm (filled ts).queue (items_of 0 ts)
  unfolding enqueue_many
  filled-perm ts = put_all-perm 0 ts []

  filled_count :
      (c : Complexity) (ts : List Text)
      → count_of c (filled ts).queue ≡ length (keep (in_bucket c) ts)
  filled_count c ts = length-keep-Perm (of_complexity c) (filled-perm ts) ∙ count_of-items_of c 0 ts

  -- No ticket is lost, doubled or parted from its position: the batches of a batcher that was
  -- filled with some tickets hold exactly those with their positions, and the queue ends empty.
  pub drained-perm :
      (ts : List Text)
      → Perm (all_entries (drained ts).0) (enumerate 0 ts) × ((drained ts).1.queue ≡ [])
  drained-perm ts =
      let (p, e) = Rounds-perm pq (drained-Rounds ts) in
      (Perm.trans p (rw (map-items_of 0 ts) at (Perm.map entry (filled-perm ts))), e)

  -- Each batch holds at least one ticket and at most the size of its complexity, all of that
  -- complexity and with an index each, and a batch of a more urgent complexity comes first.
  pub drained_batches :
      (ts : List Text) → All IsHomogeneous (drained ts).0 × IsUrgentFirst (drained ts).0
  drained_batches ts =
      (Rounds-IsHomogeneous pq (drained-Rounds ts), Rounds-IsUrgentFirst (drained-Rounds ts))

  -- There are no more batches than needed: for each complexity its tickets, as breakdown counts
  -- them, over its batch size, rounded up.
  pub length-drained :
      (ts : List Text)
      → let bd = breakdown ts in
        length (drained ts).0
        ≡ batches_for bd.simple_count simple
          + batches_for bd.medium_count medium
          + batches_for bd.complex_count complex
  length-drained ts =
      let (gs, gm, gc, cs, cm, cx, _) = breakdown-classify_many ts in
      Rounds-count pq (drained-Rounds ts)
      ∙ rw (
        filled_count simple ts,
        filled_count medium ts,
        filled_count complex ts,
        cs,
        cm,
        cx,
        gs,
        gm,
        gc,
      )
