-- ===== src/Caller/Batches.antt =====
-- pipeline/caller.py: process_batch gives one result for each ticket, in the tickets' order.
use native.Mathlib.Nat.{zero-add, add-zero, add-suc, suc-add}
use inference_forge.Base.{
  ℕ, zero, suc, ◌+◌, ◌≡◌, refl, sym, ap, ◌∙◌, Option, none, some, List, [], ◌∷◌, length, arith,
}
use inference_forge.Errors.{Error, Result, ok, raise}
use inference_forge.Text.{Text}
use inference_forge.Json.{Fields}
use inference_forge.Caller.Service.{gather, zip_results, process_batch, isolated, take}
use inference_forge.Caller.Retry.{failure_result}

abbrev pub get_elem? {ℓ} : {A : Type ℓ} → List A → ℕ → Option A
get_elem? [] i = none
get_elem? (x ∷ xs) zero = some x
get_elem? (x ∷ xs) (suc i) = get_elem? xs i

module _ (describe : Error → Text) (task : ℕ → Text → Result Fields) where
  length-zip_results :
      (ts : List Text) (from : ℕ)
      → length (zip_results describe ts (gather task from ts)) ≡ length ts
  unfolding zip_results
  length-zip_results [] from = refl
  length-zip_results (t ∷ ts) from = ap suc (length-zip_results ts (suc from))

  zip_results_lem :
      (ts : List Text) (from i : ℕ) (t : Text)
      → get_elem? ts i ≡ some t
      → get_elem? (zip_results describe ts (gather task from ts)) i
        ≡ some (isolated describe t (task (from + i) t))
  unfolding zip_results
  zip_results_lem [] from i t h = cc
  zip_results_lem (x ∷ ts) from zero t h = rw add-zero (ground arith)
  zip_results_lem (x ∷ ts) from (suc i) t h =
      rw (add-suc, sym (suc-add from i)) (zip_results_lem ts (suc from) i t h)

  -- A batch has one result for each ticket, in their order: what the ticket's own task returned, or
  -- where that task ended with an exception a failure_result with the ticket and the first 500
  -- characters of the exception's text, whatever the other tasks ended with.
  pub process_batch_lem :
      (tickets : List Text)
      → (length (process_batch describe task tickets) ≡ length tickets)
        × ((i : ℕ) (t : Text) (d : Fields)
            → get_elem? tickets i ≡ some t
            → task i t ≡ ok d
            → get_elem? (process_batch describe task tickets) i ≡ some d)
        × ((i : ℕ) (t : Text) (e : Error)
            → get_elem? tickets i ≡ some t
            → task i t ≡ raise e
            → get_elem? (process_batch describe task tickets) i
              ≡ some (failure_result t (take 500 (describe e))))
  unfolding process_batch
  process_batch_lem tickets =
      let each = λ (i : ℕ) (t : Text) (h : get_elem? tickets i ≡ some t).
        rw zero-add at (zip_results_lem tickets 0 i t h) in
      (
        length-zip_results tickets 0,
        (λ i t d h e. each i t h ∙ ap (λ r. some (isolated describe t r)) e),
        λ i t x h e. each i t h ∙ ap (λ r. some (isolated describe t r)) e,
      )
