-- ===== src/Batcher/Ordered.antt =====
-- A queue that meets the interface: a list in the order of priority, first come first served.
use mathlib.Core.List.{Perm}
use mathlib.Core.List.Perm
use inference_forge.Base.{
  ◌≤◌, ◌≡◌, refl, inl, inr, Option, none, some, false, [], ◌∷◌, leb, All-map, if◌then◌else◌, arith,
  Bool-cases,
}
use mathlib.Core.Path.{subst}
use inference_forge.Base.Perms.{All-Perm}
use native.Mathlib.Bridge.{le_prop}
use native.Mathlib.Nat.{le_trans}
use inference_forge.Batcher.{PrioritizedTicket, Items, IsLeast, PriorityQueue}

abbrev put : PrioritizedTicket → Items → Items
put x [] = x ∷ []
put x (y ∷ q) = if leb y.priority x.priority then y ∷ put x q else x ∷ y ∷ q

abbrev get : Items → Option (PrioritizedTicket × Items)
get [] = none
get (x ∷ q) = some (x, q)

abbrev IsSorted : Items → Type 0
IsSorted [] = Unit
IsSorted (x ∷ q) = IsLeast x q × IsSorted q

pub put-perm : (x : PrioritizedTicket) (q : Items) → Perm (put x q) (x ∷ q)
put-perm x [] = Perm.refl _
put-perm x (y ∷ q) = elim (Bool-cases (leb y.priority x.priority)) [
  | inl e ↦ rw e (Perm.trans (Perm.cons y (put-perm x q)) (Perm.swap x y q))
  | inr e ↦ rw e (Perm.refl _)
]

pub put-IsSorted : (x : PrioritizedTicket) (q : Items) → IsSorted q → IsSorted (put x q)
put-IsSorted x [] h = (tt, tt)
put-IsSorted x (y ∷ q) h = elim (Bool-cases (leb y.priority x.priority)) [
  | inl e ↦ rw e (
    All-Perm _ (λ _. le_prop) (Perm.symm (put-perm x q)) (ground arith, h.0),
    put-IsSorted x q h.1,
  )
  | inr e ↦ rw e ((ground arith, All-map _ _ q (λ z l. le_trans (below e) l) h.0), h)
]
  where
    below : leb y.priority x.priority ≡ false → x.priority ≤ y.priority
    below e = ground arith

pub get-perm :
    (q : Items) (x : PrioritizedTicket) (r : Items) → get q ≡ some (x, r) → Perm (x ∷ r) q
get-perm [] x r e = cc
get-perm (y ∷ q) x r e = let f : y ∷ q ≡ x ∷ r = ground arith in rw f (Perm.refl _)

pub get-IsSorted :
    (q : Items) (x : PrioritizedTicket) (r : Items)
    → IsSorted q
    → get q ≡ some (x, r)
    → IsSorted (x ∷ r)
get-IsSorted [] x r h e = cc
get-IsSorted (y ∷ q) x r h e = let f : y ∷ q ≡ x ∷ r = ground arith in subst IsSorted f h

abbrev pub ordered : PriorityQueue
ordered = record {
  IsHeap = IsSorted;
  put = put;
  get = get;
  nil-IsHeap = tt;
  put-IsHeap = put-IsSorted;
  put-perm = put-perm;
  get-nil = refl;
  get-cons = λ x q. (x, q, refl);
  get-IsHeap = λ q x r h e. (get-IsSorted q x r h e).1;
  get-perm = get-perm;
  get_least = λ q x r h e. (get-IsSorted q x r h e).0;
}
