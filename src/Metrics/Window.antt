-- ===== src/Metrics/Window.antt =====
-- observability/metrics.py: the deque of latencies holds the last samples.
use mathlib.Core.List.{append-nil, append_assoc}
use inference_forge.Base.{
  ℕ, zero, suc, ◌+◌, ◌-◌, ◌≡◌, ◌≤◌, refl, sym, ◌∙◌, ap, Bool-cases, inl, inr, List, [], ◌∷◌, ◌++◌,
  ltb, length, length-append, arith,
}
use inference_forge.Base.Fraction.{Fraction}
use inference_forge.Metrics.{Metrics, maxlen, popleft, push, record_latency}

abbrev pub record_all : List Fraction → Metrics → Metrics
record_all [] m = m
record_all (x ∷ xs) m = record_all xs (record_latency x m)

abbrev pub drop : ℕ → List Fraction → List Fraction
drop zero xs = xs
drop (suc n) [] = []
drop (suc n) (x ∷ xs) = drop n xs

-- The last so many of a list.
abbrev pub last : ℕ → List Fraction → List Fraction
last bound xs = drop (length xs - bound) xs

length-drop : (n : ℕ) (xs : List Fraction) → length (drop n xs) ≡ length xs - n
length-drop zero xs = omega arith
length-drop (suc n) [] = omega arith
length-drop (suc n) (x ∷ xs) = omega (arith, length-drop n xs)

drop-append : (n : ℕ) (xs ys : List Fraction) → n ≤ length xs → drop n (xs ++ ys) ≡ drop n xs ++ ys
drop-append zero xs ys h = refl
drop-append (suc n) [] ys h = absurd (omega (arith, h))
drop-append (suc n) (x ∷ xs) ys h = drop-append n xs ys (omega (arith, h))

popleft-drop : (n : ℕ) (xs : List Fraction) → popleft (drop n xs) ≡ drop (suc n) xs
popleft-drop zero [] = refl
popleft-drop zero (x ∷ xs) = refl
popleft-drop (suc n) [] = refl
popleft-drop (suc n) (x ∷ xs) = popleft-drop n xs

push-last :
    (bound : ℕ) (x : Fraction) (xs : List Fraction)
    → push bound x (last bound xs) ≡ last bound (xs ++ x ∷ [])
unfolding push
push-last bound x xs =
    let n = length xs - bound in
    let shown : length (drop n xs ++ x ∷ []) ≡ length xs - n + 1 =
      length-append (drop n xs) (x ∷ []) ∙ ap (λ k. k + 1) (length-drop n xs) in
    let grown : length (xs ++ x ∷ []) ≡ length xs + 1 = length-append xs (x ∷ []) in
    let kept = drop-append n xs (x ∷ []) (omega arith) in
    elim (Bool-cases (ltb bound (length (drop n xs ++ x ∷ [])))) [
      | inl full ↦
          let next : suc n ≡ length (xs ++ x ∷ []) - bound = ground (arith, shown, grown) in
          rw (full, sym kept, popleft-drop n (xs ++ x ∷ []), next) refl
      | inr room ↦
          let same : n ≡ length (xs ++ x ∷ []) - bound = ground (arith, shown, grown) in
          rw (room, sym kept, same) refl
    ]

-- After any samples the window of an empty deque holds the last `maxlen` of them, in order.
pub record_all-last :
    (before xs : List Fraction) (m : Metrics)
    → m.latency_window ≡ last maxlen before
    → (record_all xs m).latency_window ≡ last maxlen (before ++ xs)
unfolding record_latency
record_all-last before [] m h = rw append-nil h
record_all-last before (x ∷ xs) m h =
    record_all-last (before ++ x ∷ []) xs (record_latency x m)
      (ap (push maxlen x) h ∙ push-last maxlen x before)
    ∙ ap (last maxlen) (append_assoc before (x ∷ []) xs)
