-- ===== src/Jobs/Submit.antt =====
-- api/routes.py: process_tickets, over the cache of Cache and the store of Store.
use inference_forge.Base.{
  ℕ, suc, Bool, true, false, Option, none, some, List, [], ◌∷◌, ◌++◌, length,
}
use inference_forge.Base.Fraction.{Fraction}
use inference_forge.Errors.{other_exception, Result, ok, raise}
use inference_forge.Json.{Json, boolean, text, object, Fields, put, same_text}
use inference_forge.Text.{Text, codes, strip}
use inference_forge.Cache.{Redis, Library, Cache, get}
use inference_forge.Estimator.{ComplexityBreakdown, breakdown}
use inference_forge.Estimator.Eta.{EtaEstimator, estimate_initial}
use inference_forge.Jobs.Store.{Job, create, increment_progress}

pub record Submission : Type 0 where
  pub seen : List Text
  pub unique_tickets : List Text
  pub pre_cached_results : List Fields
  pub cached_count : ℕ

abbrev pub nothing_seen : Submission
nothing_seen = record { seen = []; unique_tickets = []; pre_cached_results = []; cached_count = 0 }

abbrev pub known : Text → List Text → Bool
known t [] = false
known t (u ∷ us) = elim (same_text t u) [ true ↦ true | false ↦ known t us ]

abbrev pub normalized : Library → Text → Text
normalized lib ticket = lib.lower (strip ticket)

abbrev pub mark : Text → Fields → Fields
mark ticket d = put (codes "cache_hit") (boolean true) (put (codes "ticket") (text ticket) d)

module _ {ℓ} {S : Type ℓ} (redis : Redis S) (lib : Library) where
  -- What the lookup makes of the ticket. A cached value that is no dict takes no key.
  abbrev pub looked_up : Text → Submission → Result (Option Json) → Result Submission
  looked_up ticket s (raise e) = raise e
  looked_up ticket s (ok (some (object d))) = ok (record s {
    pre_cached_results = s.pre_cached_results ++ mark ticket d ∷ [];
    cached_count = suc s.cached_count;
  })
  looked_up ticket s (ok (some _)) = raise (other_exception "TypeError")
  looked_up ticket s (ok none) = ok (record s { unique_tickets = s.unique_tickets ++ ticket ∷ [] })

  unfoldable pub submit_one : Text → Submission → Cache S → Result Submission × Cache S
  submit_one ticket s c = elim (known (normalized lib ticket) s.seen) [
    | true ↦ (ok (record s { cached_count = suc s.cached_count }), c)
    | false ↦
        let (r, c') = get redis lib ticket c in
        (looked_up ticket (record s { seen = normalized lib ticket ∷ s.seen }) r, c')
  ]

  abbrev pub and_rest :
      (Submission → Cache S → Result Submission × Cache S)
      → Result Submission × Cache S
      → Result Submission × Cache S
  and_rest rest (raise e, c) = (raise e, c)
  and_rest rest (ok s, c) = rest s c

  unfoldable pub deduplicate : List Text → Submission → Cache S → Result Submission × Cache S
  deduplicate [] s c = (ok s, c)
  deduplicate (t ∷ ts) s c = and_rest (deduplicate ts) (submit_one t s c)

-- The arguments of the background task, the response, and the gauge queue_depth as it is set.
pub record Accepted : Type 0 where
  pub unique_tickets : List Text
  pub total_tickets : ℕ
  pub pre_cached : ℕ
  pub pre_cached_results : List Fields
  pub job : Job
  pub queue_depth : ℕ
  pub unique : ℕ
  pub estimated_seconds : Fraction
  pub complexity_breakdown : ComplexityBreakdown

-- The steps behind the deduplication.
unfoldable pub accept : ℕ → ℕ → EtaEstimator → List Text → Submission → Job → Accepted
accept job_ttl_seconds now estimator tickets s j =
    let unique = length s.unique_tickets in
    let bd = breakdown s.unique_tickets in
    record {
      unique_tickets = s.unique_tickets;
      total_tickets = length tickets;
      pre_cached = s.cached_count;
      pre_cached_results = s.pre_cached_results;
      job =
          increment_progress s.cached_count 0 s.cached_count
            (create job_ttl_seconds now (length tickets) j);
      queue_depth = unique;
      unique = unique;
      estimated_seconds = estimate_initial unique bd estimator;
      complexity_breakdown = bd;
    }
