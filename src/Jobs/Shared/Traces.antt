-- ===== src/Jobs/Shared/Traces.antt =====
-- pipeline/job_store.py: the methods of many jobs in any order on the server that they share, and
-- what each job then reads.
use inference_forge.Base.{
  ℕ, ◌≡◌, ◌≢◌, refl, sym, ◌∙◌, ap, Bool, true, false, Bool-cases, inl, inr, some, List, [], ◌∷◌,
  ◌++◌, All, arith,
}
use inference_forge.Base.Fraction.{Fraction}
use inference_forge.Errors.{Result, ok, raise}
use inference_forge.Json.{Fields, same_text, same_text_refl, same_text-eq}
use inference_forge.Text.{Text, codes}
use inference_forge.Jobs.Store
use inference_forge.Jobs.Store.{Hash, Job, Event, Stats, no_hash, no_job}
use inference_forge.Jobs.Shared.{
  Redis, Value, absent, hash, string, Command, job_key, event_channel, results_key, and_then,
  create, start, increment_progress, finish, fail, publish_progress, publish_done, get_state,
  get_results, exists, hash_of, text_of, is_present, wrong_type,
}
use inference_forge.Jobs.Shared.Keys.{
  IsPlain, job_key-job_key, results_key-results_key, event_channel-event_channel,
  job_key-results_key,
}
use inference_forge.Jobs.Shared.Refined.{
  hash_view, text_view, view, IsHash, IsString, IsTyped, Refines, Spares,
}
use inference_forge.Jobs.Shared.Methods.{
  create-Refines, start-Refines, increment_progress-Refines, finish-Refines, fail-Refines,
  publish_progress-Refines, publish_done-Refines,
}

-- A call of a method that writes.
pub data Call : Type 0 where
  create_call : (now total : ℕ) → Call
  start_call : (now : ℕ) → Call
  progress_call : (completed failed_now hits : ℕ) → Call
  finish_call : (now : ℕ) (results : List Fields) → Call
  fail_call : (now : ℕ) (reason : Text) → Call
  publish_call : (completed total hits failed_count : ℕ) (eta : Fraction) → Call
  done_call : (results : List Fields) (stats : Stats) → Call

module _ (job_ttl_seconds : ℕ) where
  abbrev pub perform : Text → Call → Command
  perform i (create_call now total) = create job_ttl_seconds i now total
  perform i (start_call now) = start i now
  perform i (progress_call completed failed_now hits) =
      increment_progress i completed failed_now hits
  perform i (finish_call now results) = finish job_ttl_seconds i now results
  perform i (fail_call now reason) = fail i now reason
  perform i (publish_call completed total hits failed_count eta) =
      publish_progress i completed total hits failed_count eta
  perform i (done_call results stats) = publish_done i results stats

  -- The same call on the keys of one job alone.
  abbrev pub alone : Call → Job → Job
  alone (create_call now total) = Store.create job_ttl_seconds now total
  alone (start_call now) = Store.start now
  alone (progress_call completed failed_now hits) =
      Store.increment_progress completed failed_now hits
  alone (finish_call now results) = Store.finish job_ttl_seconds now results
  alone (fail_call now reason) = Store.fail now reason
  alone (publish_call completed total hits failed_count eta) =
      Store.publish_progress completed total hits failed_count eta
  alone (done_call results stats) = Store.publish_done results stats

  -- Calls of jobs in an order; an error ends them.
  unfoldable pub run : List (Text × Call) → Command
  run [] s = (ok tt, s)
  run ((i, c) ∷ cs) s = and_then (perform i c s) (run cs)

  abbrev pub alone_if : Bool → Call → Job → Job
  alone_if true c j = alone c j
  alone_if false c j = j

  -- The calls of one job among these.
  abbrev pub own : Text → List (Text × Call) → Job → Job
  own i [] j = j
  own i ((k, c) ∷ cs) j = own i cs (alone_if (same_text i k) c j)

  abbrev pub all_alone : List Call → Job → Job
  all_alone [] j = j
  all_alone (c ∷ cs) j = all_alone cs (alone c j)

  perform-Refines :
      (i : Text) (c : Call) (s : Redis)
      → IsPlain i
      → IsTyped i s
      → Refines i s (alone c) (perform i c s)
  perform-Refines i (create_call now total) s p t = create-Refines i p job_ttl_seconds now total s t
  perform-Refines i (start_call now) s p t = start-Refines i p now s t
  perform-Refines i (progress_call a b c) s p t = increment_progress-Refines i p a b c s t
  perform-Refines i (finish_call now rs) s p t = finish-Refines i p job_ttl_seconds now rs s t
  perform-Refines i (fail_call now reason) s p t = fail-Refines i p now reason s t
  perform-Refines i (publish_call a b c d eta) s p t = publish_progress-Refines i p a b c d eta s t
  perform-Refines i (done_call rs stats) s p t = publish_done-Refines i p rs stats s t

  abbrev pub AllTyped : Redis → Type 0
  AllTyped s = (i : Text) → IsPlain i → IsTyped i s

-- Another job's keys are among those that are spared.
module _ (i k : Text) (pi : IsPlain i) (pk : IsPlain k) (s s' : Redis) (apart : k ≢ i)
    (h : Spares k s s') where
  Spares-job_key : s'.keys (job_key i) ≡ s.keys (job_key i)
  Spares-job_key =
      h.keys_same (job_key i) (job_key-job_key k i apart) (λ e. job_key-results_key i k pi (sym e))

  Spares-results_key : s'.keys (results_key i) ≡ s.keys (results_key i)
  Spares-results_key =
      h.keys_same (results_key i) (job_key-results_key k i pk) (results_key-results_key k i apart)

  Spares-view : view i s' ≡ view i s
  Spares-view =
      rw
        (
          Spares-job_key,
          Spares-results_key,
          h.ttls_same (job_key i) (job_key-job_key k i apart)
              (λ e. job_key-results_key i k pi (sym e)),
          h.ttls_same (results_key i) (job_key-results_key k i pk)
              (results_key-results_key k i apart),
          h.channels_same (event_channel i) (event_channel-event_channel k i apart),
        )
        refl

  Spares-IsTyped : IsTyped i s → IsTyped i s'
  Spares-IsTyped t = record {
    job_typed = rw Spares-job_key t.job_typed;
    results_typed = rw Spares-results_key t.results_typed;
  }

and_then-ok : (x : Result (Unit {0}) × Redis) (f : Command) → x.0 ≡ ok tt → and_then x f ≡ f x.1
and_then-ok (ok y, s) f h = refl
and_then-ok (raise e, s) f h = cc h

apart_of : (i k : Text) → same_text i k ≡ false → k ≢ i
apart_of i k h e = let same : same_text i k ≡ true = rw e (same_text_refl i) in cc

module _ (job_ttl_seconds : ℕ) where
  perform-AllTyped :
      (k : Text) (c : Call) (s : Redis)
      → IsPlain k
      → AllTyped job_ttl_seconds s
      → AllTyped job_ttl_seconds (perform job_ttl_seconds k c s).1
  perform-AllTyped k c s pk t i pi =
      let r = perform-Refines job_ttl_seconds k c s pk (t k pk) in
      elim (Bool-cases (same_text i k)) [
        | inl e ↦ rw (same_text-eq i k e) r.typed
        | inr e ↦
            Spares-IsTyped i k pi pk s (perform job_ttl_seconds k c s).1 (apart_of i k e) r.spared
              (t i pi)
      ]

  perform-view :
      (i k : Text) (c : Call) (s : Redis)
      → IsPlain i
      → IsPlain k
      → IsTyped k s
      → view i (perform job_ttl_seconds k c s).1
        ≡ alone_if job_ttl_seconds (same_text i k) c (view i s)
  perform-view i k c s pi pk t =
      let r = perform-Refines job_ttl_seconds k c s pk t in
      elim (Bool-cases (same_text i k)) [
        | inl e ↦ rw (e, same_text-eq i k e) r.viewed
        | inr e ↦
            rw e
              (Spares-view i k pi pk s (perform job_ttl_seconds k c s).1 (apart_of i k e) r.spared)
      ]

  run-view :
      (cs : List (Text × Call)) (s : Redis)
      → All (λ x. IsPlain x.0) cs
      → AllTyped job_ttl_seconds s
      → (i : Text) → IsPlain i
      → let x = run job_ttl_seconds cs s in
        (x.0 ≡ ok tt) × (view i x.1 ≡ own job_ttl_seconds i cs (view i s)) × IsTyped i x.1
  unfolding run
  run-view [] s h t i pi = (refl, refl, t i pi)
  run-view ((k, c) ∷ cs) s h t i pi =
      let r = perform-Refines job_ttl_seconds k c s h.0 (t k h.0) in
      let s' = (perform job_ttl_seconds k c s).1 in
      let (a, b, d) = run-view cs s' h.1 (perform-AllTyped k c s h.0 t) i pi in
      let e = and_then-ok (perform job_ttl_seconds k c s) (run job_ttl_seconds cs) r.works in
      rw e (a, b ∙ ap (own job_ttl_seconds i cs) (perform-view i k c s pi h.0 (t k h.0)), d)

hash_of-view :
    (v : Value)
    → IsHash v
    → (hash_of v ≡ ok (Store.get_state (record no_job { hash = hash_view v })))
      × (is_present v ≡ Store.exists (record no_job { hash = hash_view v }))
unfolding Store.get_state
hash_of-view absent h = (refl, refl)
hash_of-view (hash g) h = (ground (arith, h), sym h)
hash_of-view (string x) h = absurd h

text_of-view : (v : Value) → IsString v → text_of v ≡ ok (text_view v)
text_of-view absent h = refl
text_of-view (hash g) h = absurd h
text_of-view (string x) h = refl

-- The calls of jobs whose ids have no colon, in any order, on a server whose keys are of their
-- types: none raises. Behind them the server has of each job, and its reads give, what the job's
-- own calls leave on the keys of that job alone.
pub run-reads :
    (job_ttl_seconds : ℕ) (cs : List (Text × Call)) (s : Redis)
    → All (λ x. IsPlain x.0) cs
    → AllTyped job_ttl_seconds s
    → (i : Text) → IsPlain i
    → let s' = (run job_ttl_seconds cs s).1 in
      let j = own job_ttl_seconds i cs (view i s) in
      ((run job_ttl_seconds cs s).0 ≡ ok tt)
      × (view i s' ≡ j)
      × (get_state i s' ≡ ok (Store.get_state j))
      × (get_results i s' ≡ ok (Store.get_results j))
      × (exists i s' ≡ Store.exists j)
unfolding get_state get_results exists Store.get_state
run-reads job_ttl_seconds cs s h t i pi =
    let (a, b, d) = run-view job_ttl_seconds cs s h t i pi in
    let (e, f) = hash_of-view _ d.job_typed in
    (
      a,
      b,
      e ∙ ap (λ j. ok (Store.get_state (record no_job { hash = j.hash }))) b,
      text_of-view _ d.results_typed ∙ ap (λ j. ok j.results) b,
      f ∙ ap (λ j. Store.exists (record no_job { hash = j.hash })) b,
    )

of_text :
    (v : Value) (all : List Fields)
    → text_of v ≡ ok (some all)
    → (is_present v ≡ true) × (hash_of v ≡ raise wrong_type)
of_text absent all h = cc h
of_text (hash g) all h = cc h
of_text (string x) all h = (refl, refl)

-- Of a job whose results are stored: the id with `:results` behind it names no job, but it exists,
-- and reading its state raises.
pub results_key_exists :
    (i : Text) (s : Redis) (all : List Fields)
    → get_results i s ≡ ok (some all)
    → (exists (i ++ codes ":results") s ≡ true)
      × (get_state (i ++ codes ":results") s ≡ raise wrong_type)
unfolding exists get_results get_state
results_key_exists i s all h = of_text _ all h
