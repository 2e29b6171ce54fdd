-- ===== src/Batcher/Rounds.antt =====
-- pipeline/batcher.py: draining the whole queue, by drain_all_batches or by the loop of a job.
use mathlib.Core.List.{Perm}
use mathlib.Core.List.Perm
use native.Mathlib.Bridge.{le_prop}
use inference_forge.Base.{
  ℕ, zero, suc, ◌+◌, ◌-◌, ◌/◌, ◌≤◌, ◌≡◌, refl, sym, ◌∙◌, ap, ◌⊎◌, inl, inr, none, some, List, [],
  ◌∷◌, ◌++◌, map, length, length-append, keep, keep-append, All, if◌then◌else◌, arith, Option-cases,
}
use inference_forge.Base.Perms.{All-Perm, length-keep-Perm, length-Perm}
use inference_forge.Estimator.{
  Complexity, simple, medium, complex, same, batch_size, complexity_priority, classify,
}
use inference_forge.Batcher.{Batch, Items, PriorityQueue, Batcher, drain_batch, drain_from}
use inference_forge.Batcher.Collect.{
  IsPrioritized, IsPrioritized-prop, of_complexity, AtLeast, nil_of_get,
}
use inference_forge.Batcher.Drained.{
  Entry, entry, entries, IsReady, Drained, drain_batch-none, drain_batch-some, drain_batch_taken,
}

-- One round of draining gives nothing exactly from an empty queue; else its batch and what is left
-- are as Drained says.
pub drain_batch_lem :
    (pq : PriorityQueue) (b : Batcher)
    → IsReady pq b
    → (b.queue ≡ []) × (drain_batch pq b ≡ (none, b))
      ⊎ ((batch : Batch) × (b' : Batcher) × (drain_batch pq b ≡ (some batch, b'))
          × Drained pq b batch b')
drain_batch_lem pq b h = elim (Option-cases (pq.get b.queue)) [
  | inl e ↦ inl (nil_of_get pq b.queue e, drain_batch-none pq b e)
  | inr ((first, r), e) ↦
      inr (_, _, drain_batch-some pq b first r e, drain_batch_taken pq b first r e h)
]

-- A queue drained round by round until it is empty.
pub data Rounds (pq : PriorityQueue) : Batcher → List Batch → Batcher → Type 0 where
  done : {b : Batcher} → b.queue ≡ [] → Rounds pq b [] b
  round :
      {b b1 b' : Batcher} {batch : Batch} {batches : List Batch}
      → Drained pq b batch b1
      → Rounds pq b1 batches b'
      → Rounds pq b (batch ∷ batches) b'

nil_of_length : (q : Items) → length q ≤ 0 → q ≡ []
nil_of_length [] h = refl
nil_of_length (x ∷ q) h = absurd (omega arith)

module _ (pq : PriorityQueue) where
  shorter :
      (b b' : Batcher) (batch : Batch)
      → Drained pq b batch b'
      → length batch.tickets + length b'.queue ≡ length b.queue
  shorter b b' batch d =
      let (xs, kept, _, same_length) = d.items in
      omega (arith, length-append xs b'.queue, length-Perm kept, same_length)

  drain_from-none :
      (fuel : ℕ) (b : Batcher) → drain_batch pq b ≡ (none, b) → drain_from pq (suc fuel) b ≡ ([], b)
  unfolding drain_from
  drain_from-none fuel b e = ground arith

  drain_from-some :
      (fuel : ℕ) (b b' : Batcher) (batch : Batch)
      → drain_batch pq b ≡ (some batch, b')
      → drain_from pq (suc fuel) b ≡ (batch ∷ (drain_from pq fuel b').0, (drain_from pq fuel b').1)
  unfolding drain_from
  drain_from-some fuel b b' batch e = ground arith

  pub drain_from-Rounds :
      (fuel : ℕ) (b : Batcher)
      → IsReady pq b
      → length b.queue ≤ fuel
      → Rounds pq b (drain_from pq fuel b).0 (drain_from pq fuel b).1
  drain_from-Rounds zero b h f = unfold drain_from in done (nil_of_length b.queue f)
  drain_from-Rounds (suc fuel) b h f = elim (drain_batch_lem pq b h) [
    | inl (empty, e) ↦ rw (drain_from-none fuel b e) (done empty)
    | inr (batch, b', e, d) ↦ rw (drain_from-some fuel b b' batch e) (
        round d
          (drain_from-Rounds fuel b' d.ready (omega (arith, shorter b b' batch d, d.some_taken))))
  ]

abbrev pub all_entries : List Batch → List Entry
all_entries [] = []
all_entries (b ∷ bs) = entries b ++ all_entries bs

-- Urgent batches come first.
abbrev pub IsUrgentFirst : List Batch → Type 0
IsUrgentFirst [] = Unit
IsUrgentFirst (b ∷ bs) =
    All (λ c. complexity_priority b.complexity ≤ complexity_priority c.complexity) bs
    × IsUrgentFirst bs

-- A batch is of one complexity and within its size.
pub record IsHomogeneous (b : Batch) : Type 0 where
  pub classified : All (λ t. classify t ≡ b.complexity) b.tickets
  pub some_taken : 1 ≤ length b.tickets
  pub fits : length b.tickets ≤ batch_size b.complexity
  pub paired : length b.tickets ≡ length b.indices

-- n / size rounded up.
abbrev pub batches_for : ℕ → Complexity → ℕ
batches_for n c = (n + batch_size c - 1) / batch_size c

abbrev pub count_of : Complexity → Items → ℕ
count_of c q = length (keep (of_complexity c) q)

abbrev pub batches_needed : Items → ℕ
batches_needed q =
    batches_for (count_of simple q) simple
    + batches_for (count_of medium q) medium
    + batches_for (count_of complex q) complex

count_alike :
    (c d : Complexity) (xs : Items)
    → All (λ x. x.complexity ≡ c) xs
    → count_of d xs ≡ (if same c d then length xs else 0)
count_alike c d [] a = ground arith
count_alike c d (x ∷ xs) a = ground (arith, count_alike c d xs a.1)

first_of :
    (c : Complexity) (p : ℕ) (xs q : Items)
    → 1 ≤ length xs
    → All (λ x. x.complexity ≡ c) xs
    → All IsPrioritized (xs ++ q)
    → AtLeast p (xs ++ q)
    → p ≤ complexity_priority c
first_of c p [] q l a h f = absurd (omega arith)
first_of c p (x ∷ xs) q l a h f = ground (arith, h.0.ranked, a.0, f.0)

module _ (pq : PriorityQueue) where
  pub Rounds-perm :
      {b b' : Batcher} {bs : List Batch}
      → Rounds pq b bs b'
      → Perm (all_entries bs) (map entry b.queue) × (b'.queue ≡ [])
  Rounds-perm (done e) = (rw e (Perm.refl []), e)
  Rounds-perm {b} (round {batch = batch} d r) =
      let (p, e) = Rounds-perm r in (Perm.trans (Perm.append_left (entries batch) p) d.kept, e)

  pub Rounds-IsHomogeneous :
      {b b' : Batcher} {bs : List Batch} → Rounds pq b bs b' → All IsHomogeneous bs
  Rounds-IsHomogeneous (done e) = tt
  Rounds-IsHomogeneous (round d r) = (
    record {
      classified = d.classified;
      some_taken = d.some_taken;
      fits = d.fits;
      paired = d.paired;
    },
    Rounds-IsHomogeneous r,
  )

  counts :
      (b b' : Batcher) (batch : Batch) (c : Complexity)
      → Drained pq b batch b'
      → count_of c b.queue
        ≡ (if same batch.complexity c then length batch.tickets else 0) + count_of c b'.queue
  counts b b' batch c d =
      let (xs, kept, alike, same_length) = d.items in
      sym (length-keep-Perm (of_complexity c) kept)
      ∙ ap length (keep-append (of_complexity c) xs b'.queue)
      ∙ length-append (keep (of_complexity c) xs) _
      ∙ ap (λ n. n + count_of c b'.queue)
          (count_alike batch.complexity c xs alike
            ∙ ap (λ n. if same batch.complexity c then n else 0) same_length)

  needed :
      (b b' : Batcher) (batch : Batch)
      → Drained pq b batch b'
      → batches_needed b.queue ≡ suc (batches_needed b'.queue)
  needed b b' batch d = ground (
    arith,
    counts b b' batch simple d,
    counts b b' batch medium d,
    counts b b' batch complex d,
    d.greedy,
    d.fits,
    d.some_taken,
  )

  pub Rounds-count :
      {b b' : Batcher} {bs : List Batch} → Rounds pq b bs b' → length bs ≡ batches_needed b.queue
  Rounds-count (done e) = rw e
  Rounds-count (round {b = b} {b1 = b1} {batch = batch} d r) =
      ap suc (Rounds-count r) ∙ sym (needed b b1 batch d)

  pub first_item :
      (b b' : Batcher) (batch : Batch) (p : ℕ)
      → All IsPrioritized b.queue
      → AtLeast p b.queue
      → Drained pq b batch b'
      → p ≤ complexity_priority batch.complexity
  first_item b b' batch p h a d =
      let (xs, kept, alike, same_length) = d.items in
      first_of batch.complexity p xs b'.queue (omega (arith, same_length, d.some_taken)) alike
        (All-Perm _ IsPrioritized-prop (Perm.symm kept) h)
        (All-Perm _ (λ _. le_prop) (Perm.symm kept) a)
