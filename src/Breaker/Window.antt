-- ===== src/Breaker/Window.antt =====
-- pipeline/circuit_breaker.py: _evict_old_failures. The loop stops at the first recent failure,
-- which is enough as the deque is in the order of time.
use inference_forge.Base.{
  ℕ, suc, ◌+◌, ◌≤◌, ◌≡◌, refl, Bool, List, [], ◌∷◌, leb, keep, All, All-append, arith,
}
use inference_forge.Breaker.{Breaker, append, drop_old}

-- time.monotonic() never goes back.
abbrev pub IsMonotonic : (ℕ → ℕ) → Type 0
IsMonotonic clock = (i : ℕ) → clock i ≤ clock (suc i)

abbrev pub in_window : ℕ → ℕ → ℕ → Bool
in_window window now t = leb now (t + window)

abbrev pub Ascending : List ℕ → Type 0
Ascending [] = Unit
Ascending (t ∷ ts) = All (λ u. t ≤ u) ts × Ascending ts

pub record IsTimed (clock : ℕ → ℕ) (b : Breaker) : Type 0 where
  pub ascending : Ascending b.failure_timestamps
  pub past : All (λ t. t ≤ clock b.reads) b.failure_timestamps

keep_all :
    (w now t : ℕ) (ts : List ℕ) → now ≤ t + w → All (λ u. t ≤ u) ts → keep (in_window w now) ts ≡ ts
keep_all w now t [] h a = refl
keep_all w now t (u ∷ us) h a = ground (arith, keep_all w now t us h a.1)

-- On a deque in the order of time the eviction loop keeps exactly the failures in the window.
pub drop_old-eq-keep :
    (w now : ℕ) (ts : List ℕ) → Ascending ts → drop_old w now ts ≡ keep (in_window w now) ts
unfolding drop_old
drop_old-eq-keep w now [] a = refl
drop_old-eq-keep w now (t ∷ ts) a =
    ground (arith, drop_old-eq-keep w now ts a.1, keep_all w now t ts)

pub All-drop_old : (P : ℕ → Type 0) (w now : ℕ) (ts : List ℕ) → All P ts → All P (drop_old w now ts)
unfolding drop_old
All-drop_old P w now [] a = a
All-drop_old P w now (t ∷ ts) a = ground (arith, All-drop_old P w now ts a.1)

pub Ascending-drop_old : (w now : ℕ) (ts : List ℕ) → Ascending ts → Ascending (drop_old w now ts)
unfolding drop_old
Ascending-drop_old w now [] a = a
Ascending-drop_old w now (t ∷ ts) a = ground (arith, Ascending-drop_old w now ts a.1)

pub Ascending-append :
    (ts : List ℕ) (x : ℕ) → All (λ t. t ≤ x) ts → Ascending ts → Ascending (append ts x)
Ascending-append [] x p a = (tt, tt)
Ascending-append (t ∷ ts) x p a =
    (All-append (λ u. t ≤ u) ts (x ∷ []) a.0 (p.0, tt), Ascending-append ts x p.1 a.1)
