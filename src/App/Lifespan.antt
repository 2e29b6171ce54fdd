-- ===== src/App/Lifespan.antt =====
-- main.py: which clients lifespan leaves open.
use inference_forge.Base.{ℕ, suc, ◌+◌, ◌-◌, ◌<◌, ◌≡◌, ◌⊎◌, List, [], ◌∷◌}
use inference_forge.Errors.{Error, Result, ok, raise}
use inference_forge.App.{Client, Action, built, closed, Ending}

abbrev pub count_built : List Action → ℕ
count_built [] = 0
count_built (built _ ∷ xs) = suc (count_built xs)
count_built (_ ∷ xs) = count_built xs

abbrev pub count_closed : List Action → ℕ
count_closed [] = 0
count_closed (closed _ ∷ xs) = suc (count_closed xs)
count_closed (_ ∷ xs) = count_closed xs

-- The clients that are built and not closed.
abbrev pub left_open : List Action → ℕ
left_open xs = count_built xs - count_closed xs

-- What the shutdown of so many clients ends with.
abbrev Shut : ℕ → Ending → Type 0
Shut n e =
    (count_built e.actions ≡ 0)
    × (((e.result ≡ ok tt) × (count_closed e.actions ≡ n))
        ⊎ ((err : Error) × ((e.result ≡ raise err) × (count_closed e.actions < n))))

module _ (build close : Client → Result (Unit {0})) where
  -- Behind `n` clients that are built: all are closed, or an exception leaves one of them open.
  abbrev Leaves : ℕ → Ending → Type 0
  Leaves n e =
      ((e.result ≡ ok tt) × (count_closed e.actions ≡ n + count_built e.actions))
      ⊎ ((err : Error) × (e.result ≡ raise err)
          × (count_closed e.actions < n + count_built e.actions))
