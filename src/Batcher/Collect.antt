-- ===== src/Batcher/Collect.antt =====
-- pipeline/batcher.py: what one round of drain_batch takes from the queue.
use mathlib.Core.List.{Perm}
use mathlib.Core.List.Perm
use mathlib.Core.HLevel.{hedberg}
use native.Mathlib.Nat.{ℕ_set, le_trans}
use native.Mathlib.Bridge.{le_prop}
use inference_forge.Base.{
  ℕ, zero, suc, ◌≤◌, ◌≡◌, refl, ◌∙◌, ◌⊎◌, inl, inr, none, some, Bool, true, false, [], ◌∷◌, ◌++◌,
  length, keep, All, All-map, arith, Bool-cases, Option-cases,
}
use inference_forge.Base.Perms.{All-Perm, length-keep-Perm}
use inference_forge.Estimator.{Complexity, same, complexity_priority, classify}
use inference_forge.Batcher.{PrioritizedTicket, Items, PriorityQueue, collect}

-- Complexity and priority of an item are those of its ticket.
pub record IsPrioritized (x : PrioritizedTicket) : Type 0 where
  pub ranked : x.priority ≡ complexity_priority x.complexity
  pub classified : x.complexity ≡ classify x.ticket

pub Complexity-discrete : Discrete Complexity
Complexity-discrete = hlevel

pub IsPrioritized-prop : (x : PrioritizedTicket) → IsProp (IsPrioritized x)
IsPrioritized-prop x h k = λ i. record {
  ranked = ℕ_set _ _ h.ranked k.ranked i;
  classified = hedberg Complexity-discrete _ _ h.classified k.classified i;
}

abbrev pub of_complexity : Complexity → PrioritizedTicket → Bool
of_complexity c x = same x.complexity c

abbrev pub AtLeast : ℕ → Items → Type 0
AtLeast p q = All (λ x. p ≤ x.priority) q

-- What the loop leaves and takes: `xs` and `q'` are the queue, `xs` is of complexity `c` and fits
-- the room, and the room is full or the queue has no more of it.
pub record Collected (pq : PriorityQueue) (room : ℕ) (c : Complexity) (q xs q' : Items)
    : Type 0 where
  pub kept : Perm (xs ++ q') q
  pub alike : All (λ x. x.complexity ≡ c) xs
  pub fits : length xs ≤ room
  pub heap : pq.IsHeap q'
  pub greedy : (length xs ≡ room) ⊎ (length (keep (of_complexity c) q') ≡ 0)

same_eq : (c d : Complexity) → same c d ≡ true → c ≡ d
same_eq c d h = ground arith

-- No item of a higher priority number is of this complexity.
above_none :
    (c : Complexity) (q : Items)
    → All IsPrioritized q
    → AtLeast (suc (complexity_priority c)) q
    → length (keep (of_complexity c) q) ≡ 0
above_none c [] h p = refl
above_none c (x ∷ q) h p = ground (arith, above_none c q h.1 p.1)

above_other :
    (c : Complexity) (x : PrioritizedTicket)
    → IsPrioritized x
    → complexity_priority c ≤ x.priority
    → same x.complexity c ≡ false
    → suc (complexity_priority c) ≤ x.priority
above_other c x h p o = ground arith

module _ (pq : PriorityQueue) where
  open pq use {
    put, get, IsHeap, put-IsHeap, put-perm, get-nil, get-cons, get-IsHeap, get-perm, get_least,
  }

  pub nil_of_get : (q : Items) → get q ≡ none → q ≡ []
  nil_of_get [] e = refl
  nil_of_get (x ∷ q) e = let (y, r, f) = get-cons x q in ground arith

  module _ (room : ℕ) (c : Complexity) (q : Items) where
    collect-none : get q ≡ none → collect pq (suc room) c q ≡ ([], q)
    unfolding collect
    collect-none e = rw (e, collect) refl

    collect-same :
        (x : PrioritizedTicket) (r : Items)
        → get q ≡ some (x, r)
        → same x.complexity c ≡ true
        → collect pq (suc room) c q ≡ (x ∷ (collect pq room c r).0, (collect pq room c r).1)
    unfolding collect
    collect-same x r e s = ground arith

    collect_other :
        (x : PrioritizedTicket) (r : Items)
        → get q ≡ some (x, r)
        → same x.complexity c ≡ false
        → collect pq (suc room) c q ≡ ([], put x r)
    unfolding collect
    collect_other x r e o = ground arith

  pub collect_lem :
      (room : ℕ) (c : Complexity) (q : Items)
      → IsHeap q
      → All IsPrioritized q
      → AtLeast (complexity_priority c) q
      → Collected pq room c q (collect pq room c q).0 (collect pq room c q).1
  collect_lem zero c q h p a =
      unfold collect in
      record { kept = Perm.refl q; alike = tt; fits = omega arith; heap = h; greedy = inl refl }
  collect_lem (suc room) c q h p a = elim (Option-cases (get q)) [
    | inl e ↦ rw (collect-none room c q e) (record {
      kept = Perm.refl q;
      alike = tt;
      fits = omega arith;
      heap = h;
      greedy = inr (rw (nil_of_get q e));
    })
    | inr ((x, r), e) ↦
        let left = get-IsHeap q x r h e in
        let taken = get-perm q x r e in
        let p' = All-Perm IsPrioritized IsPrioritized-prop (Perm.symm taken) p in
        let a' = All-Perm _ (λ _. le_prop) (Perm.symm taken) a in
        elim (Bool-cases (same x.complexity c)) [
          | inl s ↦
              let ih = collect_lem room c r left p'.1 a'.1 in
              rw (collect-same room c q x r e s) (record {
                kept = Perm.trans (Perm.cons x ih.kept) taken;
                alike = (same_eq _ _ s, ih.alike);
                fits = omega (arith, ih.fits);
                heap = ih.heap;
                greedy = ground (arith, ih.greedy);
              })
          | inr o ↦
              let above = above_other c x p'.0 a'.0 o in
              let rest = All-map _ _ r (λ y l. le_trans above l) (get_least q x r h e) in
              rw (collect_other room c q x r e o) (record {
                kept = Perm.trans (put-perm x r) taken;
                alike = tt;
                fits = omega arith;
                heap = put-IsHeap x r left;
                greedy =
                    inr (length-keep-Perm _ (put-perm x r) ∙ above_none c (x ∷ r) p' (above, rest));
              })
        ]
  ]
