-- ===== src/Jobs/Resubmitted.antt =====
-- api/routes.py: a request whose tickets all have a result in the cache.
use mathlib.Core.Path.{subst}
use mathlib.Core.List.{append-nil}
use inference_forge.Base.{
  ℕ, suc, ◌+◌, ◌≡◌, refl, ◌∙◌, ap, Bool-cases, inl, inr, true, some, List, [], ◌∷◌, ◌++◌, All,
  All-append, All-map, length, arith,
}
use inference_forge.Errors.{Error, Result, ok, raise}
use inference_forge.Json.{natural, boolean, text, object, Fields, put, get-put-other}
use inference_forge.Text.{Text, codes}
use inference_forge.Batcher.{PriorityQueue, enqueue_many, put_all, drain_all_batches}
use inference_forge.Batcher.Whole.{drained}
use inference_forge.Cache
use inference_forge.Cache.{Redis, Library, Cache, answered, maybe_log_rate, ticket_key}
use inference_forge.Cache.Laws.{Serves, answered-redis}
use inference_forge.Estimator.Eta.{EtaEstimator}
use inference_forge.Jobs.Store.{
  Job, done, number_or_zero, start, finish, publish_done, create, increment_progress,
}
use inference_forge.Jobs.Submit.{
  Submission, nothing_seen, known, normalized, mark, submit_one, and_rest, deduplicate, accept,
}
use inference_forge.Jobs.Process.{Env, tokens_of, process_job, rounds}
use inference_forge.Jobs.Accounts.{HasTokens, sum_tokens-ok, hincrby_lem}
use inference_forge.Jobs.Submitted.{Distinct, deduplicate_lem}
use inference_forge.Jobs.Shares.{Shares-named}
use inference_forge.Jobs.Whole.{HasEach, job_of}

module _ {ℓ} {S : Type ℓ} (redis : Redis S) (lib : Library) (serves : Serves redis) where
  -- The server has a dict for the ticket, with a natural number of tokens.
  pub record IsStored (state : S) (ticket : Text) : Type 0 where
    pub raw : Text
    pub result : Fields
    pub held : serves.held (ticket_key lib ticket) state ≡ some raw
    pub reads : lib.loads raw ≡ ok (object result)
    pub tokens : HasTokens result

  mark-HasTokens : (t : Text) (d : Fields) → HasTokens d → HasTokens (mark t d)
  mark-HasTokens t d (n, e) = (
    n,
    rw
        (
          tokens_of,
          get-put-other (codes "cache_hit") (codes "tokens") (boolean true)
              (put (codes "ticket") (text t) d) refl,
          get-put-other (codes "ticket") (codes "tokens") (text t) d refl,
        )
        e,
  )

  -- The dict that the server has for a ticket, with the ticket and cache_hit set.
  abbrev pub IsAnswer : S → Fields → Type 0
  IsAnswer state x = (t : Text) × (h : IsStored state t) × (x ≡ mark t h.result)

  IsAnswer-HasTokens : (state : S) (x : Fields) → IsAnswer state x → HasTokens x
  IsAnswer-HasTokens state x (t, h, e) = rw e (mark-HasTokens t h.result h.tokens)

  -- What is left of a submission behind tickets that the cache answers.
  pub record IsCached (state : S) (n : ℕ) (s : Submission) (x : Result Submission × Cache S)
      : Type ℓ where
    pub after : Submission
    pub accepted : x.0 ≡ ok after
    pub same_state : x.1.redis ≡ state
    pub none_unique : after.unique_tickets ≡ s.unique_tickets
    pub all_cached : after.cached_count ≡ s.cached_count + n
    pub answers : All (IsAnswer state) after.pre_cached_results

  submit_one-IsCached :
      (state : S) (t : Text) (s : Submission) (c : Cache S)
      → IsStored state t
      → c.redis ≡ state
      → All (IsAnswer state) s.pre_cached_results
      → IsCached state 1 s (submit_one redis lib t s c)
  unfolding submit_one Cache.get
  submit_one-IsCached state t s c h e has = elim (Bool-cases (known (normalized lib t) s.seen)) [
    | inl k ↦
        rw (submit_one, k)
          (record {
            after = record s { cached_count = suc s.cached_count };
            accepted = refl;
            same_state = e;
            none_unique = refl;
            all_cached = omega arith;
            answers = has;
          })
    | inr k ↦
        let found : serves.held (ticket_key lib t) c.redis ≡ some h.raw = rw e h.held in
        rw (submit_one, k, serves.get-held, found, h.reads)
          (record {
            after = record s {
              seen = normalized lib t ∷ s.seen;
              pre_cached_results = s.pre_cached_results ++ mark t h.result ∷ [];
              cached_count = suc s.cached_count;
            };
            accepted = refl;
            same_state = answered-redis redis lib serves (some h.raw) c.redis c ∙ e;
            none_unique = refl;
            all_cached = omega arith;
            answers =
                All-append (IsAnswer state) s.pre_cached_results (mark t h.result ∷ []) has
                  ((t, h, refl), tt);
          })
  ]

  IsCached-and_rest :
      (state : S) (n : ℕ) (s : Submission) (x : Result Submission × Cache S)
      (rest : Submission → Cache S → Result Submission × Cache S)
      → IsCached state 1 s x
      → ((s' : Submission) (c' : Cache S)
          → c'.redis ≡ state
          → All (IsAnswer state) s'.pre_cached_results
          → IsCached state n s' (rest s' c'))
      → IsCached state (suc n) s (and_rest redis lib rest x)
  IsCached-and_rest state n s (raise e, c) rest h f = cc h.accepted
  IsCached-and_rest state n s (ok s', c) rest h f =
      let same : s' ≡ h.after = cc h.accepted in
      let r = f s' c h.same_state (rw same h.answers) in
      record {
        after = r.after;
        accepted = r.accepted;
        same_state = r.same_state;
        none_unique =
            r.none_unique ∙ ap (λ (u : Submission). u.unique_tickets) same ∙ h.none_unique;
        all_cached =
            omega (arith, r.all_cached, ap (λ (u : Submission). u.cached_count) same, h.all_cached);
        answers = r.answers;
      }

  deduplicate-IsCached :
      (state : S) (ts : List Text) (s : Submission) (c : Cache S)
      → All (IsStored state) ts
      → c.redis ≡ state
      → All (IsAnswer state) s.pre_cached_results
      → IsCached state (length ts) s (deduplicate redis lib ts s c)
  unfolding deduplicate
  deduplicate-IsCached state [] s c h e has = record {
    after = s;
    accepted = refl;
    same_state = e;
    none_unique = refl;
    all_cached = omega arith;
    answers = has;
  }
  deduplicate-IsCached state (t ∷ ts) s c (h, hs) e has =
      IsCached-and_rest state (length ts) s (submit_one redis lib t s c) (deduplicate redis lib ts)
        (submit_one-IsCached state t s c h e has)
        (λ s' c' e' has'. deduplicate-IsCached state ts s' c' hs e' has')

  module _ (pq : PriorityQueue) (env : Env) (describe : Error → Text)
      (adds : (a b : ℕ) → env.plus (natural a) (natural b) ≡ ok (natural (a + b))) where
    no_batch : (drained pq []).0 ≡ []
    unfolding drain_all_batches enqueue_many put_all
    no_batch = refl

    -- The job of a submission with no ticket to classify.
    at_once :
        (task : ℕ → ℕ → Text → Result Fields) (tickets : List Text) (s : Submission) (now : ℕ)
        (e : EtaEstimator) (j : Job)
        → s.unique_tickets ≡ []
        → All HasTokens s.pre_cached_results
        → let after = job_of redis lib pq env describe task tickets s now e j in
          (after.hash.status ≡ some done)
          × (number_or_zero after.hash.completed ≡ s.cached_count)
          × (after.results ≡ some s.pre_cached_results)
    unfolding accept process_job rounds start finish publish_done create increment_progress
    at_once task tickets s now e j h has =
        rw (h, no_batch, sum_tokens-ok env.plus adds 0 s.pre_cached_results has)
          (refl, hincrby_lem s.cached_count (some 0) ∙ omega arith, refl)

    -- A request each of whose tickets has a dict in the cache, with a natural number of tokens: it
    -- is accepted with no ticket to classify, and its job is done at once, whatever the tasks that
    -- classify tickets would do, with all its tickets completed. Each of its results is the dict that
    -- the server has for the ticket that it names, with this ticket and cache_hit set, and they name
    -- tickets of the request, each once, whose normalized texts are pairwise different and are those
    -- of all its tickets.
    pub resubmitted :
        (tickets : List Text) (c : Cache S) (now : ℕ) (e : EtaEstimator) (j : Job)
        → All (IsStored c.redis) tickets
        → (s : Submission) × ((deduplicate redis lib tickets nothing_seen c).0 ≡ ok s)
          × (s.unique_tickets ≡ [])
          × All (IsAnswer c.redis) s.pre_cached_results
          × HasEach lib tickets s.pre_cached_results
          × ((task : ℕ → ℕ → Text → Result Fields)
              → let after = job_of redis lib pq env describe task tickets s now e j in
                (after.hash.status ≡ some done)
                × (number_or_zero after.hash.completed ≡ length tickets)
                × (after.results ≡ some s.pre_cached_results))
    resubmitted tickets c now e j stored =
        let r = deduplicate-IsCached c.redis tickets nothing_seen c stored refl tt in
        let b = deduplicate_lem redis lib tickets r.after c r.accepted in
        let has =
          All-map (IsAnswer c.redis) HasTokens r.after.pre_cached_results
            (IsAnswer-HasTokens c.redis) r.answers in
        (
          r.after,
          r.accepted,
          r.none_unique,
          r.answers,
          record {
            firsts = b.firsts;
            distinct = subst Distinct b.keys b.distinct;
            covers = λ t a. rw b.keys at (b.covers t a);
            of_request = b.of_request;
            named = rw (r.none_unique, append-nil) at (Shares-named _ _ b.shares);
          },
          λ task.
              let (x, y, z) = at_once task tickets r.after now e j r.none_unique has in
              (x, y ∙ omega (arith, r.all_cached), z),
        )
