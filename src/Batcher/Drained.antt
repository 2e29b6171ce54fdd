-- ===== src/Batcher/Drained.antt =====
-- pipeline/batcher.py: drain_batch.
use mathlib.Core.List.{Perm, map-append}
use mathlib.Core.List.Perm
use native.Mathlib.Bridge.{le_prop}
use inference_forge.Base.{
  ℕ, suc, ◌-◌, ◌≤◌, ◌≡◌, refl, sym, ◌∙◌, ap, ◌⊎◌, none, some, List, [], ◌∷◌, ◌++◌, map, length,
  keep, All, All-map, arith,
}
use inference_forge.Base.Perms.{All-Perm}
use inference_forge.Text.{Text}
use inference_forge.Estimator.{Complexity, batch_size, complexity_priority, classify}
use inference_forge.Batcher.{
  PrioritizedTicket, Batch, Items, IsLeast, PriorityQueue, Batcher, collect, batch_of, take_batch,
  drain_batch,
}
use inference_forge.Batcher.Collect.{
  IsPrioritized, IsPrioritized-prop, of_complexity, AtLeast, collect_lem,
}

pub record Taken (pq : PriorityQueue) (q : Items) (first : PrioritizedTicket) (more q' : Items)
    : Type 0 where
  pub kept : Perm (first ∷ more ++ q') q
  pub alike : All (λ x. x.complexity ≡ first.complexity) (first ∷ more)
  pub fits : length (first ∷ more) ≤ batch_size first.complexity
  pub heap : pq.IsHeap q'
  pub greedy :
      (length (first ∷ more) ≡ batch_size first.complexity)
      ⊎ (length (keep (of_complexity first.complexity) q') ≡ 0)
  pub least : IsLeast first q'

one-le-batch_size : (c : Complexity) → 1 ≤ batch_size c
one-le-batch_size c = ground arith

All-append_right {ℓ κ} :
    {A : Type ℓ} (P : A → Type κ) (xs ys : List A) → All P (xs ++ ys) → All P ys
All-append_right P [] ys h = h
All-append_right P (x ∷ xs) ys h = All-append_right P xs ys h.1

pub All-append_left {ℓ κ} :
    {A : Type ℓ} (P : A → Type κ) (xs ys : List A) → All P (xs ++ ys) → All P xs
All-append_left P [] ys h = tt
All-append_left P (x ∷ xs) ys h = (h.0, All-append_left P xs ys h.1)

module _ (pq : PriorityQueue) where
  open pq use {get, IsHeap, get-nil, get-cons, get-IsHeap, get-perm, get_least}

  abbrev pub rest_of : PrioritizedTicket → Items → Items × Items
  rest_of first r = collect pq (batch_size first.complexity - 1) first.complexity r

  take_batch-some :
      (q : Items) (first : PrioritizedTicket) (r : Items)
      → get q ≡ some (first, r)
      → take_batch pq q ≡ some (first, (rest_of first r).0, (rest_of first r).1)
  unfolding take_batch
  take_batch-some q first r e = ground arith

  take_batch_lem :
      (q : Items) (first : PrioritizedTicket) (r : Items)
      → IsHeap q
      → All IsPrioritized q
      → get q ≡ some (first, r)
      → Taken pq q first (rest_of first r).0 (rest_of first r).1
  take_batch_lem q first r h p e =
      let left = get-IsHeap q first r h e in
      let taken = get-perm q first r e in
      let p' = All-Perm IsPrioritized IsPrioritized-prop (Perm.symm taken) p in
      let least = get_least q first r h e in
      let c = first.complexity in
      let floor =
        All-map _ (λ x. complexity_priority c ≤ x.priority) r (λ y l. rw p'.0.ranked at l) least in
      let got = collect_lem pq (batch_size c - 1) c r left p'.1 floor in
      let one = one-le-batch_size c in
      record {
        kept = Perm.trans (Perm.cons first got.kept) taken;
        alike = (refl, got.alike);
        fits = omega (arith, got.fits);
        heap = got.heap;
        greedy = ground (arith, got.greedy);
        least =
            All-append_right _ (rest_of first r).0 _
              (All-Perm _ (λ _. le_prop) (Perm.symm got.kept) least);
      }

-- A ticket with its index.
abbrev pub Entry : Type 0
Entry = Text × ℕ

abbrev pub entry : PrioritizedTicket → Entry
entry x = (x.ticket, x.original_index)

abbrev pub zip_entries : List Text → List ℕ → List Entry
zip_entries [] _ = []
zip_entries (t ∷ ts) [] = []
zip_entries (t ∷ ts) (i ∷ is) = (t, i) ∷ zip_entries ts is

abbrev pub entries : Batch → List Entry
entries b = zip_entries b.tickets b.indices

pub record IsReady (pq : PriorityQueue) (b : Batcher) : Type 0 where
  pub heap : pq.IsHeap b.queue
  pub prioritized : All IsPrioritized b.queue
  pub depth_shows : b.queue_depth ≡ length b.queue

-- One round: the batch and what it leaves.
pub record Drained (pq : PriorityQueue) (b : Batcher) (batch : Batch) (b' : Batcher) : Type 0 where
  pub ready : IsReady pq b'
  pub kept : Perm (entries batch ++ map entry b'.queue) (map entry b.queue)
  pub paired : length batch.tickets ≡ length batch.indices
  pub classified : All (λ t. classify t ≡ batch.complexity) batch.tickets
  pub some_taken : 1 ≤ length batch.tickets
  pub fits : length batch.tickets ≤ batch_size batch.complexity
  pub greedy :
      (length batch.tickets ≡ batch_size batch.complexity)
      ⊎ (length (keep (of_complexity batch.complexity) b'.queue) ≡ 0)
  pub urgent : AtLeast (complexity_priority batch.complexity) b'.queue
  pub items :
      (xs : Items) × (Perm (xs ++ b'.queue) b.queue)
      × (All (λ x. x.complexity ≡ batch.complexity) xs)
      × (length xs ≡ length batch.tickets)

zip_entries-map :
    (xs : Items)
    → zip_entries (map (λ x. x.ticket) xs) (map (λ x. x.original_index) xs) ≡ map entry xs
zip_entries-map [] = refl
zip_entries-map (x ∷ xs) = ap (λ l. entry x ∷ l) (zip_entries-map xs)

length-map {ℓ κ} :
    {A : Type ℓ} {B : Type κ} (f : A → B) (xs : List A) → length (map f xs) ≡ length xs
length-map f [] = refl
length-map f (x ∷ xs) = ap suc (length-map f xs)

All-classified :
    (c : Complexity) (xs : Items)
    → All IsPrioritized xs
    → All (λ x. x.complexity ≡ c) xs
    → All (λ t. classify t ≡ c) (map (λ x. x.ticket) xs)
All-classified c [] p a = tt
All-classified c (x ∷ xs) p a = (sym p.0.classified ∙ a.0, All-classified c xs p.1 a.1)

module _ (pq : PriorityQueue) (b : Batcher) where
  open pq use {get}

  pub drain_batch-none : get b.queue ≡ none → drain_batch pq b ≡ (none, b)
  unfolding drain_batch
  drain_batch-none e = ground arith

  module _ (first : PrioritizedTicket) (r : Items) (e : get b.queue ≡ some (first, r)) where
    abbrev pub more : Items
    more = (rest_of pq first r).0

    abbrev pub left : Items
    left = (rest_of pq first r).1

    abbrev pub batch : Batch
    batch = batch_of pq first more

    abbrev pub after : Batcher
    after = record { queue = left; queue_depth = length left }

    pub drain_batch-some : drain_batch pq b ≡ (some batch, after)
    unfolding drain_batch
    drain_batch-some = ground arith

    pub drain_batch_taken : IsReady pq b → Drained pq b batch after
    drain_batch_taken h =
        let t = take_batch_lem pq b.queue first r h.heap h.prioritized e in
        let ready = All-Perm _ IsPrioritized-prop (Perm.symm t.kept) h.prioritized in
        record {
          ready = record {
            heap = t.heap;
            prioritized = All-append_right _ (first ∷ more) left ready;
            depth_shows = refl;
          };
          kept =
              rw (zip_entries-map more)
                (rw (map-append entry (first ∷ more) left) at (Perm.map entry t.kept));
          paired = length-map _ (first ∷ more) ∙ sym (length-map _ (first ∷ more));
          classified =
              All-classified _ (first ∷ more) (All-append_left _ (first ∷ more) left ready) t.alike;
          some_taken = omega arith;
          fits = rw (length-map (λ x. x.ticket) more) t.fits;
          greedy = rw (length-map (λ x. x.ticket) more) t.greedy;
          urgent = All-map _ _ left (λ y l. rw ready.0.ranked at l) t.least;
          items = (first ∷ more, t.kept, t.alike, ap suc (sym (length-map _ more)));
        }
