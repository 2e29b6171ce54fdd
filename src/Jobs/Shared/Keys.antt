-- ===== src/Jobs/Shared/Keys.antt =====
-- pipeline/job_store.py: the keys of different jobs are different, if no job's id has a colon, as
-- the ids of uuid4 have none.
use mathlib.Core.List.{append_cancel_left, append_cancel_right}
use inference_forge.Base.{
  ◌≡◌, ◌≢◌, refl, Bool, true, false, [], ◌∷◌, ◌++◌, ◌==◌, ◌||◌, Bool-cases, inl, inr, arith,
}
use inference_forge.Json.{same_text, same_text_refl, same_text-eq}
use inference_forge.Text.{Text, codes}
use inference_forge.Jobs.Shared.{job_key, event_channel, results_key, at_key}

abbrev pub has_colon : Text → Bool
has_colon [] = false
has_colon (c ∷ cs) = c == b':' || has_colon cs

abbrev pub IsPlain : Text → Type 0
IsPlain job_id = has_colon job_id ≡ false

pub at_key-same {ℓ} : {A : Type ℓ} (key : Text) (a : A) (f : Text → A) → at_key key a f key ≡ a
unfolding at_key
at_key-same key a f = rw (same_text_refl key) refl

pub at_key-other {ℓ} :
    {A : Type ℓ} (key : Text) (a : A) (f : Text → A) (k : Text) → key ≢ k → at_key key a f k ≡ f k
unfolding at_key
at_key-other key a f k h = elim (Bool-cases (same_text key k)) [
  | inl e ↦ absurd (h (same_text-eq key k e))
  | inr e ↦ rw e refl
]

has_colon-append : (s t : Text) → has_colon (s ++ 58 ∷ t) ≡ true
has_colon-append [] t = refl
has_colon-append (c ∷ cs) t = ground (arith, has_colon-append cs t)

pub job_key-job_key : (i j : Text) → i ≢ j → job_key i ≢ job_key j
job_key-job_key i j h e = h (append_cancel_left (codes "job:") i j e)

pub results_key-results_key : (i j : Text) → i ≢ j → results_key i ≢ results_key j
results_key-results_key i j h e =
    h (append_cancel_right i j (codes ":results") (append_cancel_left (codes "job:") _ _ e))

pub event_channel-event_channel : (i j : Text) → i ≢ j → event_channel i ≢ event_channel j
event_channel-event_channel i j h e =
    h (append_cancel_right i j (codes ":events") (append_cancel_left (codes "job:") _ _ e))

pub job_key-results_key : (i j : Text) → IsPlain i → job_key i ≢ results_key j
job_key-results_key i j h e =
    let e' : i ≡ j ++ codes ":results" = append_cancel_left (codes "job:") _ _ e in
    let colon : has_colon i ≡ true = rw e' (has_colon-append j (codes "results")) in cc
