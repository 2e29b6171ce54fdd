-- ===== src/Jobs/Whole.antt =====
-- api/routes.py: a request from its submission to the end of its job, over the batcher and the
-- caller as they are.
use native.Mathlib.Nat.{zero-add}
use mathlib.Core.Path.{subst}
use mathlib.Core.List.{Perm}
use mathlib.Core.List.Perm
use inference_forge.Base.{
  ℕ, suc, ◌+◌, ◌≤◌, ◌≡◌, refl, sym, ◌∙◌, ap, true, map, some, List, [], ◌∷◌, ◌++◌, length,
  length-append, length-keep-le, All, arith,
}
use inference_forge.Errors.{Error, Result, ok, raise}
use inference_forge.Json.{natural, Fields}
use inference_forge.Text.{Text}
use inference_forge.Batcher.{PriorityQueue, Batch}
use inference_forge.Base.Perms.{length-Perm}
use inference_forge.Batcher.Drained.{zip_entries, entries}
use inference_forge.Batcher.Rounds.{IsHomogeneous, all_entries}
use inference_forge.Batcher.Whole.{enumerate, drained, drained-perm, drained_batches}
use inference_forge.Cache.{Redis, Library, Cache}
use inference_forge.Caller.Service.{isolated, gather, zip_results, process_batch}
use inference_forge.Caller.Batches.{process_batch_lem}
use inference_forge.Estimator.Eta.{EtaEstimator}
use inference_forge.Jobs.Store.{
  Event, finished, Stats, Job, done, number_or_zero, create, increment_progress,
}
use inference_forge.Jobs.Submit.{Submission, nothing_seen, known, normalized, deduplicate, accept}
use inference_forge.Jobs.Submitted.{Distinct, Balanced, deduplicate_lem}
use inference_forge.Jobs.Shares.{Among, ticket_of, name_of, map-append, length-Shares, Shares-named}
use inference_forge.Jobs.Named.{texts_in, drained-texts}
use inference_forge.Jobs.Process.{is_error, rate, Env, process_job}
use inference_forge.Jobs.Accounts.{hincrby_lem, HasTokens, all_tokens, tickets_in}
use inference_forge.Jobs.Quiet.{IsProgress}
use inference_forge.Jobs.Outcome.{IsDone, process_job_lem, process_job_named}

-- Each outcome that is a result has a number of tokens.
abbrev pub Counts : (ℕ → Text → Result Fields) → Type 0
Counts task = (i : ℕ) (t : Text) (d : Fields) → task i t ≡ ok d → HasTokens d

module _ (describe : Error → Text) (task : ℕ → Text → Result Fields) (counts : Counts task) where
  isolated-HasTokens :
      (t : Text) (r : Result Fields)
      → ((d : Fields) → r ≡ ok d → HasTokens d)
      → HasTokens (isolated describe t r)
  isolated-HasTokens t (ok d) h = h d refl
  isolated-HasTokens t (raise e) h = (0, refl)

  zip_results-HasTokens :
      (i : ℕ) (ts : List Text) → All HasTokens (zip_results describe ts (gather task i ts))
  unfolding zip_results
  zip_results-HasTokens i [] = tt
  zip_results-HasTokens i (t ∷ ts) =
      (isolated-HasTokens t (task i t) (counts i t), zip_results-HasTokens (suc i) ts)

  pub process_batch-HasTokens : (ts : List Text) → All HasTokens (process_batch describe task ts)
  unfolding process_batch
  process_batch-HasTokens ts = zip_results-HasTokens 0 ts

length-map {ℓ κ} :
    {A : Type ℓ} {B : Type κ} (f : A → B) (xs : List A) → length (map f xs) ≡ length xs
length-map f [] = refl
length-map f (x ∷ xs) = ap suc (length-map f xs)

length-zip_entries :
    (ts : List Text) (is : List ℕ) → length ts ≡ length is → length (zip_entries ts is) ≡ length ts
length-zip_entries [] is h = refl
length-zip_entries (t ∷ ts) [] h = absurd (omega (arith, h))
length-zip_entries (t ∷ ts) (i ∷ is) h = ap suc (length-zip_entries ts is (omega (arith, h)))

length-all_entries :
    (bs : List Batch) → All IsHomogeneous bs → length (all_entries bs) ≡ tickets_in bs
length-all_entries [] h = refl
length-all_entries (b ∷ bs) (h, hs) =
    length-append (entries b) (all_entries bs)
    ∙ omega (arith, length-zip_entries b.tickets b.indices h.paired, length-all_entries bs hs)

length-enumerate : (i : ℕ) (ts : List Text) → length (enumerate i ts) ≡ length ts
length-enumerate i [] = refl
length-enumerate i (t ∷ ts) = ap suc (length-enumerate (i + 1) ts)

tickets_in-drained :
    (pq : PriorityQueue) (ts : List Text) → tickets_in (drained pq ts).0 ≡ length ts
tickets_in-drained pq ts =
    sym (length-all_entries (drained pq ts).0 (drained_batches pq ts).0)
    ∙ length-Perm (drained-perm pq ts).0
    ∙ length-enumerate 0 ts

-- The end of the job of a request: nothing of the request is lost. Each ticket is in the counters,
-- as one that succeeded (a duplicate does, and one found in the cache) or as one that failed, and
-- there are as many results as different normalized texts. The job published its progress and last
-- the results that the store has, with their tokens and the share of failures.
pub record IsServed (tickets : List Text) (s : Submission) (before after : Job) : Type 0 where
  pub status : after.hash.status ≡ some done
  pub counters :
      number_or_zero after.hash.completed + number_or_zero after.hash.failed_count ≡ length tickets
  pub all : List Fields
  pub results : after.results ≡ some all
  pub each : length all ≡ length s.seen
  pub failures : number_or_zero after.hash.failed_count ≤ length s.unique_tickets
  pub progressed : List Event
  pub only_progress : All IsProgress progressed
  pub stats : Stats
  pub tokens : stats.total_tokens ≡ natural (all_tokens all)
  pub failure_rate :
      stats.failure_rate ≡ rate (length tickets) (number_or_zero after.hash.failed_count)
  pub events : after.events ≡ before.events ++ (progressed ++ finished all stats ∷ [])

-- The results `all` of a request: `firsts` are tickets of the request whose normalized texts are
-- pairwise different, each ticket of the request has one of these texts, and the results name
-- `firsts`, each one once.
pub record HasEach (lib : Library) (tickets : List Text) (all : List Fields) : Type 0 where
  pub firsts : List Text
  pub distinct : Distinct (map (normalized lib) firsts)
  pub covers :
      (t : Text) → Among t tickets → known (normalized lib t) (map (normalized lib) firsts) ≡ true
  pub of_request : (t : Text) → Among t firsts → Among t tickets
  pub named : Perm (map ticket_of all) (map name_of firsts)

module _ {ℓ} {S : Type ℓ} (redis : Redis S) (lib : Library) (pq : PriorityQueue) (env : Env)
    (describe : Error → Text) (task : ℕ → ℕ → Text → Result Fields) where
  -- The environment of a job whose batches the caller processes, the batch `n` by `task n`.
  abbrev pub with_caller : Env
  with_caller = record env { process_batch = λ n ts. ok (process_batch describe (task n) ts) }

  abbrev pub job_of : List Text → Submission → ℕ → EtaEstimator → Job → Job
  job_of tickets s now e j =
      let a = accept env.job_ttl_seconds now e tickets s j in
      process_job with_caller a.total_tickets (drained pq a.unique_tickets).0 a.pre_cached
        a.pre_cached_results e a.job

  answers :
      (n : ℕ) (ts : List Text)
      → Counts (task n)
      → (rs : List Fields) × ((with_caller.process_batch n ts ≡ ok rs)
          × ((length rs ≡ length ts) × All HasTokens rs))
  answers n ts counts = (
    process_batch describe (task n) ts,
    (
      refl,
      (
        (process_batch_lem describe (task n) ts).0,
        process_batch-HasTokens describe (task n) counts ts,
      ),
    ),
  )

  accepted_counters :
      (tickets : List Text) (s : Submission) (now : ℕ) (e : EtaEstimator) (j : Job)
      → let a = accept env.job_ttl_seconds now e tickets s j in
        (number_or_zero a.job.hash.completed ≡ s.cached_count)
        × (number_or_zero a.job.hash.failed_count ≡ 0)
  unfolding accept create increment_progress
  accepted_counters tickets s now e j = (hincrby_lem s.cached_count (some 0) ∙ zero-add _, refl)

  done-IsServed :
      (tickets : List Text) (s : Submission) (n : ℕ) (first before after : Job)
      → Balanced redis lib tickets s
      → n ≡ length s.unique_tickets
      → number_or_zero before.hash.completed ≡ s.cached_count
      → number_or_zero before.hash.failed_count ≡ 0
      → before.events ≡ first.events
      → IsDone (length tickets) s.pre_cached_results before n after
      → IsServed tickets s first after
  done-IsServed tickets s n first before after b e c f v d = record {
    status = d.status;
    counters = omega (arith, d.counters, b.total, e, c, f);
    all = s.pre_cached_results ++ d.new;
    results = d.results;
    each =
        length-append s.pre_cached_results d.new
        ∙ omega (
          arith,
          length-Shares _ _ b.shares,
          ap length b.keys,
          length-map (normalized lib) b.firsts,
          d.each,
          e,
        );
    failures = omega (arith, d.failures, length-keep-le is_error d.new, d.each, e, f);
    progressed = d.progressed;
    only_progress = d.only_progress;
    stats = d.stats;
    tokens = d.tokens;
    failure_rate = d.failure_rate ∙ ap (rate (length tickets)) (omega (arith, d.failures, f));
    events =
        d.events
        ∙ ap (λ es. es ++ (d.progressed ++ finished (s.pre_cached_results ++ d.new) d.stats ∷ []))
            v;
  }

  named-HasEach :
      (tickets : List Text) (s : Submission) (all new : List Fields)
      → Balanced redis lib tickets s
      → all ≡ s.pre_cached_results ++ new
      → map ticket_of new ≡ map name_of (texts_in (drained pq s.unique_tickets).0)
      → HasEach lib tickets all
  named-HasEach tickets s all new b split named =
      let taken : Perm (map ticket_of new) (map name_of s.unique_tickets) =
        rw named (Perm.map name_of (drained-texts pq s.unique_tickets)) in
      record {
        firsts = b.firsts;
        distinct = subst Distinct b.keys b.distinct;
        covers = λ t a. rw b.keys at (b.covers t a);
        of_request = b.of_request;
        named =
            rw (split, map-append ticket_of s.pre_cached_results new)
              (Perm.trans (Perm.append_left (map ticket_of s.pre_cached_results) taken)
                (Shares-named _ _ b.shares));
      }

  -- A request whose tickets were looked up with no exception is served, whatever the tasks that
  -- classify them end with, as long as all results count their tokens by natural numbers, which
  -- plus adds: its job ends as done, each ticket is counted as completed or as failed, and there are
  -- no more failures than tickets to classify. Its results name tickets of the request, each once,
  -- whose normalized texts are pairwise different and are those of all its tickets. It publishes
  -- its progress, and last its results with all their tokens and the share of failures.
  pub job_of-IsServed :
      (tickets : List Text) (s : Submission) (c : Cache S) (now : ℕ) (e : EtaEstimator) (j : Job)
      → (deduplicate redis lib tickets nothing_seen c).0 ≡ ok s
      → ((n : ℕ) → Counts (task n))
      → All HasTokens s.pre_cached_results
      → ((a b : ℕ) → env.plus (natural a) (natural b) ≡ ok (natural (a + b)))
      → (served : IsServed tickets s j (job_of tickets s now e j)) × HasEach lib tickets served.all
  unfolding accept create increment_progress
  job_of-IsServed tickets s c now e j dedup counts has adds =
      let a = accept env.job_ttl_seconds now e tickets s j in
      let batches = (drained pq s.unique_tickets).0 in
      let (completed, failed) = accepted_counters tickets s now e j in
      let b = deduplicate_lem redis lib tickets s c dedup in
      let served =
        done-IsServed tickets s (tickets_in batches) j a.job (job_of tickets s now e j) b
          (tickets_in-drained pq s.unique_tickets) completed failed refl
          (process_job_lem with_caller a.total_tickets batches s.cached_count s.pre_cached_results e
            a.job (λ n ts. answers n ts (counts n)) adds has) in
      let (new, results, named) =
        process_job_named with_caller a.total_tickets batches s.cached_count s.pre_cached_results e
          a.job (λ n ts. answers n ts (counts n)) adds has in
      let same : served.all ≡ s.pre_cached_results ++ new = cc (served.results, results) in
      (served, named-HasEach tickets s served.all new b same named)
