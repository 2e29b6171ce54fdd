-- ===== src/Batcher.antt =====
-- pipeline/batcher.py: PrioritizedTicket, Batch and PriorityBatcher.
--
-- The asyncio.PriorityQueue is an interface: the list that it keeps, put and get_nowait, and what
-- is documented of them, that an item of the least priority comes first. Which of several such
-- items comes first is left open, as the order of PrioritizedTicket compares the priority alone.
pub mod Collect
pub mod Drained
pub mod Rounds
pub mod Whole
pub mod Ordered
mod Tests
use mathlib.Core.List.{Perm}
use inference_forge.Base.{
  ℕ, zero, suc, ◌+◌, ◌-◌, ◌≤◌, ◌≡◌, Option, none, some, Bool, true, false, List, [], ◌∷◌, ◌++◌, map,
  length, All, if◌then◌else◌,
}
use inference_forge.Text.{Text}
use inference_forge.Estimator.{Complexity, same, batch_size, complexity_priority, classify}

pub record PrioritizedTicket : Type 0 where
  pub priority : ℕ
  pub ticket : Text
  pub complexity : Complexity
  pub original_index : ℕ

pub record Batch : Type 0 where
  pub tickets : List Text
  pub complexity : Complexity
  pub indices : List ℕ

abbrev pub Items : Type 0
Items = List PrioritizedTicket

abbrev pub IsLeast : PrioritizedTicket → Items → Type 0
IsLeast x q = All (λ y. x.priority ≤ y.priority) q

pub record PriorityQueue : Type 1 where
  pub IsHeap : Items → Type 0
  pub put : PrioritizedTicket → Items → Items
  pub get : Items → Option (PrioritizedTicket × Items)
  pub nil-IsHeap : IsHeap []
  pub put-IsHeap : (x : PrioritizedTicket) (q : Items) → IsHeap q → IsHeap (put x q)
  pub put-perm : (x : PrioritizedTicket) (q : Items) → Perm (put x q) (x ∷ q)
  pub get-nil : get [] ≡ none
  pub get-cons :
      (x : PrioritizedTicket) (q : Items)
      → (y : PrioritizedTicket) × (r : Items) × (get (x ∷ q) ≡ some (y, r))
  pub get-IsHeap :
      (q : Items) (x : PrioritizedTicket) (r : Items) → IsHeap q → get q ≡ some (x, r) → IsHeap r
  pub get-perm :
      (q : Items) (x : PrioritizedTicket) (r : Items) → get q ≡ some (x, r) → Perm (x ∷ r) q
  pub get_least :
      (q : Items) (x : PrioritizedTicket) (r : Items) → IsHeap q → get q ≡ some (x, r) → IsLeast x r

-- The object with the Prometheus gauge queue_depth, which it sets.
pub record Batcher : Type 0 where
  pub queue : Items
  pub queue_depth : ℕ

abbrev pub prioritized : Text → ℕ → PrioritizedTicket
prioritized ticket index = record {
  priority = complexity_priority (classify ticket);
  ticket = ticket;
  complexity = classify ticket;
  original_index = index;
}

module _ (pq : PriorityQueue) where
  open pq use {put, get}

  -- The loop of enqueue_many: `index` is start_index + i.
  unfoldable pub put_all : ℕ → List Text → Items → Items
  put_all index [] q = q
  put_all index (t ∷ ts) q = put_all (index + 1) ts (put (prioritized t index) q)

  unfoldable pub enqueue_many : List Text → ℕ → Batcher → Batcher
  enqueue_many tickets start_index b =
      let q = put_all start_index tickets b.queue in record { queue = q; queue_depth = length q }

  -- The loop of drain_batch with room for so many more: the tickets that it takes, and the queue.
  unfoldable pub collect : ℕ → Complexity → Items → Items × Items
  collect zero c q = ([], q)
  collect (suc room) c q = elim (get q) [
    | none ↦ ([], q)
    | some (x, r) ↦ elim (same x.complexity c) [
      | true ↦ let (xs, q') = collect room c r in (x ∷ xs, q')
      | false ↦ ([], put x r)
    ]
  ]

  abbrev pub batch_of : PrioritizedTicket → Items → Batch
  batch_of first more = record {
    tickets = map (λ x. x.ticket) (first ∷ more);
    complexity = first.complexity;
    indices = map (λ x. x.original_index) (first ∷ more);
  }

  -- What drain_batch takes, first the item that decides the complexity.
  unfoldable pub take_batch : Items → Option (PrioritizedTicket × Items × Items)
  take_batch q = elim (get q) [
    | none ↦ none
    | some (first, r) ↦
        let (more, q') = collect (batch_size first.complexity - 1) first.complexity r in
        some (first, more, q')
  ]

  unfoldable pub drain_batch : Batcher → Option Batch × Batcher
  unfolding take_batch
  drain_batch b = elim (take_batch b.queue) [
    | none ↦ (none, b)
    | some (first, more, q') ↦
        (some (batch_of first more), record { queue = q'; queue_depth = length q' })
  ]

  -- drain_all_batches, and the loop of _process_job over drain_batch. Each round takes an item, so
  -- the length of the queue is enough fuel.
  unfoldable pub drain_from : ℕ → Batcher → List Batch × Batcher
  drain_from zero b = ([], b)
  drain_from (suc fuel) b =
      let (drained, b') = drain_batch b in
      elim drained [
        | none ↦ ([], b')
        | some batch ↦ let (batches, b'') = drain_from fuel b' in (batch ∷ batches, b'')
      ]

  unfoldable pub drain_all_batches : Batcher → List Batch × Batcher
  unfolding drain_from
  drain_all_batches b = drain_from (length b.queue) b
