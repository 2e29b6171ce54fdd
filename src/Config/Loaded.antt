-- ===== src/Config/Loaded.antt =====
-- config.py: the settings that are accepted, and what the pipeline may rely on with them.
use inference_forge.Base.{ℕ, ◌≡◌, ◌⊎◌, refl, inl, inr, Bool, true, false, Option, some}
use inference_forge.Errors.{value_error, ok, raise}
use inference_forge.Text.{Text}
use inference_forge.Config.{Settings, in_ranges, among, allowed, validate_log_level, level_of, load}
use inference_forge.Config.Checks.{InRanges, in_ranges-InRanges, InRanges-in_ranges}

module _ (upper : Text → Text) where
  -- The fields with bounds are within them, and the level is one of the five, in any case.
  pub record IsAccepted (s : Settings) : Type 0 where
    pub ranges : InRanges s
    pub level : among (upper s.log_level) allowed ≡ true

  load-cases :
      (s : Settings) (b c : Bool)
      → in_ranges s ≡ b
      → among (upper s.log_level) allowed ≡ c
      → (IsAccepted s × (load upper s ≡ ok (record s { log_level = upper s.log_level })))
        ⊎ ((¬ IsAccepted s) × (load upper s ≡ raise value_error))
  unfolding load validate_log_level
  load-cases s true true h k =
      inl (record { ranges = in_ranges-InRanges s h; level = k }, rw (h, k) refl)
  load-cases s true false h k = inr ((λ a. cc (k, a.level)), rw (h, k) refl)
  load-cases s false c h k = inr ((λ a. cc (h, InRanges-in_ranges s a.ranges)), rw h refl)

  -- The settings are accepted exactly if each field with bounds is within them and the level is
  -- one of the five in any case, and all they change is that the level is in upper case. All others
  -- are a ValueError.
  pub load_lem :
      (s : Settings)
      → (IsAccepted s × (load upper s ≡ ok (record s { log_level = upper s.log_level })))
        ⊎ ((¬ IsAccepted s) × (load upper s ≡ raise value_error))
  load_lem s = load-cases s (in_ranges s) (among (upper s.log_level) allowed) refl refl

-- The module logging has an attribute for each of the five names.
abbrev pub HasLevels : (Text → Option ℕ) → Type 0
HasLevels attribute =
    (name : Text) → among name allowed ≡ true → (level : ℕ) × (attribute name ≡ some level)

-- getattr never takes its default for settings that are accepted.
pub level_of-named :
    (attribute : Text → Option ℕ) (upper : Text → Text) (s s' : Settings)
    → HasLevels attribute
    → load upper s ≡ ok s'
    → attribute s'.log_level ≡ some (level_of attribute s'.log_level)
unfolding level_of
level_of-named attribute upper s s' named h = elim (load_lem upper s) [
  | inl (a, e) ↦
      let (n, k) = named (upper s.log_level) a.level in
      let same : s' ≡ record s { log_level = upper s.log_level } = cc (h, e) in
      rw (same, level_of, k) refl
  | inr (a, e) ↦ cc (h, e)
]
