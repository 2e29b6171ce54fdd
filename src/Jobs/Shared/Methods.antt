-- ===== src/Jobs/Shared/Methods.antt =====
-- pipeline/job_store.py: each method of JobStore on the server that all jobs share is that of
-- Jobs/Store.antt on its own job, and spares the other jobs.
use inference_forge.Base.{
  ℕ, zero, suc, ◌≡◌, ◌<◌, arith, refl, sym, ◌∙◌, ap, true, none, some, List, [], ◌∷◌, ◌++◌,
}
use inference_forge.Base.Fraction.{Fraction}
use inference_forge.Errors.{ok}
use inference_forge.Json.{Fields}
use inference_forge.Text.{Text}
use inference_forge.Jobs.Store
use inference_forge.Jobs.Store.{
  Hash, Job, Event, Stats, progress, finished, hincrby, no_hash, no_job,
}
use inference_forge.Jobs.Shared.{
  Redis, Value, absent, hash, string, Command, at_key, job_key, event_channel, results_key, hset,
  expire_key, expire_value, set_key, execute, queue_if, create, start, increment_progress, finish,
  fail, publish, publish_progress, publish_done, is_present,
}
use inference_forge.Jobs.Shared.Keys.{IsPlain, at_key-same, at_key-other, job_key-results_key}
use inference_forge.Jobs.Shared.Refined.{
  hash_view, view, HasField, IsHash, IsTyped, Refines, on_hash, hset-Refines, Refines-and_then,
  Refines-both,
}

present_of : (v : Value) → IsHash v → HasField (hash_view v) → is_present v ≡ true
unfolding Store.exists
present_of absent t h = cc h
present_of (hash g) t h = refl
present_of (string x) t h = refl

expire_value-present :
    (key : Text) (n : ℕ) (v : Value) (s : Redis)
    → is_present v ≡ true
    → expire_value key n v s ≡ (ok tt, record s { ttls = at_key key (some n) s.ttls })
expire_value-present key n absent s h = cc h
expire_value-present key n (hash g) s h = refl
expire_value-present key n (string x) s h = refl

completed-HasField :
    (n : ℕ) (h : Hash) → 0 < n → HasField (record h { completed = hincrby n h.completed })
unfolding Store.exists
completed-HasField zero h k = absurd (omega (arith, k))
completed-HasField (suc n) h k = ground arith

failed_count-HasField :
    (n : ℕ) (h : Hash) → 0 < n → HasField (record h { failed_count = hincrby n h.failed_count })
unfolding Store.exists
failed_count-HasField zero h k = absurd (omega (arith, k))
failed_count-HasField (suc n) h k = ground arith

cache_hits-HasField :
    (n : ℕ) (h : Hash) → 0 < n → HasField (record h { cache_hits = hincrby n h.cache_hits })
unfolding Store.exists
cache_hits-HasField zero h k = absurd (omega (arith, k))
cache_hits-HasField (suc n) h k = ground arith

module _ (i : Text) (plain : IsPlain i) where
  expire_key-Refines :
      (n : ℕ) (s : Redis)
      → IsTyped i s
      → is_present (s.keys (job_key i)) ≡ true
      → Refines i s (Store.expire n) (expire_key (job_key i) n s)
  unfolding expire_key
  expire_key-Refines n s t h =
      rw (expire_value-present (job_key i) n (s.keys (job_key i)) s h) (record {
        works = refl;
        viewed =
            rw
              (
                at_key-same (job_key i) (some n) s.ttls,
                at_key-other (job_key i) (some n) s.ttls (results_key i)
                    (job_key-results_key i i plain),
              )
              refl;
        typed = record { job_typed = t.job_typed; results_typed = t.results_typed };
        spared = record {
          keys_same = λ k a b. refl;
          ttls_same = λ k a b. at_key-other (job_key i) (some n) s.ttls k a;
          channels_same = λ c a. refl;
        };
      })

  pub create-Refines :
      (ttl now total : ℕ) (s : Redis)
      → IsTyped i s
      → Refines i s (Store.create ttl now total) (create ttl i now total s)
  unfolding create Store.create Store.exists
  create-Refines ttl now total s t =
      Refines-and_then i plain s _ (Store.expire ttl) _ _ (hset-Refines i plain _ s (λ h. refl) t)
        (λ t' e.
          expire_key-Refines ttl _ t' (
            present_of _ t'.job_typed (ap (λ j. Store.exists (record no_job { hash = j.hash })) e)))

  pub start-Refines :
      (now : ℕ) (s : Redis) → IsTyped i s → Refines i s (Store.start now) (start i now s)
  unfolding start Store.start Store.exists
  start-Refines now s t = hset-Refines i plain _ s (λ h. refl) t

  pub fail-Refines :
      (now : ℕ) (reason : Text) (s : Redis)
      → IsTyped i s
      → Refines i s (Store.fail now reason) (fail i now reason s)
  unfolding fail Store.fail Store.exists
  fail-Refines now reason s t = hset-Refines i plain _ s (λ h. refl) t

  publish-Refines :
      (e : Event) (s : Redis)
      → IsTyped i s
      → Refines i s (λ j. record j { events = j.events ++ e ∷ [] }) (publish (event_channel i) e s)
  publish-Refines e s t = record {
    works = refl;
    viewed =
        rw (at_key-same (event_channel i) (s.channels (event_channel i) ++ e ∷ []) s.channels) refl;
    typed = record { job_typed = t.job_typed; results_typed = t.results_typed };
    spared = record {
      keys_same = λ k a b. refl;
      ttls_same = λ k a b. refl;
      channels_same = λ c a. at_key-other (event_channel i) _ s.channels c a;
    };
  }

  pub publish_progress-Refines :
      (completed total hits failed_count : ℕ) (eta : Fraction) (s : Redis)
      → IsTyped i s
      → Refines i s
          (Store.publish_progress completed total hits failed_count eta)
          (publish_progress i completed total hits failed_count eta s)
  unfolding publish_progress Store.publish_progress
  publish_progress-Refines completed total hits failed_count eta s t =
      publish-Refines (progress completed total hits failed_count eta) s t

  pub publish_done-Refines :
      (results : List Fields) (stats : Stats) (s : Redis)
      → IsTyped i s
      → Refines i s (Store.publish_done results stats) (publish_done i results stats s)
  unfolding publish_done Store.publish_done
  publish_done-Refines results stats s t = publish-Refines (finished results stats) s t

  queue_if-Refines :
      (n : ℕ) (f : Hash → Hash) (g : Job → Job) (cs : List Command) (s : Redis)
      → (n ≡ 0 → (h : Hash) → f h ≡ h)
      → (0 < n → (h : Hash) → HasField (f h))
      → ((t : Redis) → IsTyped i t → Refines i t g (execute cs t))
      → IsTyped i s
      → Refines i s (λ j. g (on_hash i plain f j)) (execute (queue_if n (hset (job_key i) f) cs) s)
  unfolding execute
  queue_if-Refines zero f g cs s same some_field k t =
      let r = k s t in
      record {
        works = r.works;
        viewed = r.viewed ∙ ap g (ap (λ h. record (view i s) { hash = h }) (sym (same refl _)));
        typed = r.typed;
        spared = r.spared;
      }
  queue_if-Refines (suc n) f g cs s same some_field k t =
      Refines-both i plain s (on_hash i plain f) g _ (execute cs)
        (hset-Refines i plain f s (some_field (omega arith)) t) (λ t' e. k _ t')

  nothing-Refines : (s : Redis) → IsTyped i s → Refines i s (λ j. j) (execute [] s)
  unfolding execute
  nothing-Refines s t = record {
    works = refl;
    viewed = refl;
    typed = t;
    spared = record {
      keys_same = λ k a b. refl;
      ttls_same = λ k a b. refl;
      channels_same = λ c a. refl;
    };
  }

  pub increment_progress-Refines :
      (completed failed_now hits : ℕ) (s : Redis)
      → IsTyped i s
      → Refines i s
          (Store.increment_progress completed failed_now hits)
          (increment_progress i completed failed_now hits s)
  unfolding increment_progress Store.increment_progress
  increment_progress-Refines completed failed_now hits s t =
      queue_if-Refines completed (λ h. record h { completed = hincrby completed h.completed }) _ _ s
        (λ e h. rw e refl) (λ k h. completed-HasField completed h k)
        (λ s1 t1.
          queue_if-Refines failed_now
            (λ h. record h { failed_count = hincrby failed_now h.failed_count }) _ _ s1
            (λ e h. rw e refl) (λ k h. failed_count-HasField failed_now h k)
            (λ s2 t2.
              queue_if-Refines hits (λ h. record h { cache_hits = hincrby hits h.cache_hits })
                (λ j. j) [] s2 (λ e h. rw e refl) (λ k h. cache_hits-HasField hits h k)
                (λ s3 t3. nothing-Refines s3 t3) t2)
            t1)
        t

  abbrev stored : ℕ → List Fields → Job → Job
  stored n results j = record j { results = some results; results_ttl = some n }

  set_key-Refines :
      (n : ℕ) (results : List Fields) (s : Redis)
      → IsTyped i s
      → Refines i s
          (stored n results)
          (execute (set_key (results_key i) results ∷ expire_key (results_key i) n ∷ []) s)
  unfolding execute set_key expire_key
  set_key-Refines n results s t =
      let key = results_key i in
      let apart = λ (e : key ≡ job_key i). job_key-results_key i i plain (sym e) in
      let ttls = at_key key none s.ttls in
      rw (at_key-same key (string results) s.keys) (record {
        works = refl;
        viewed =
            rw
              (
                at_key-same key (string results) s.keys,
                at_key-other key (string results) s.keys (job_key i) apart,
                at_key-same key (some n) ttls,
                at_key-other key (some n) ttls (job_key i) apart,
                at_key-other key none s.ttls (job_key i) apart,
              )
              refl;
        typed = record {
          job_typed = rw (at_key-other key (string results) s.keys (job_key i) apart) t.job_typed;
          results_typed = rw (at_key-same key (string results) s.keys) tt;
        };
        spared = record {
          keys_same = λ k a b. at_key-other key (string results) s.keys k b;
          ttls_same =
              λ k a b. at_key-other key (some n) ttls k b ∙ at_key-other key none s.ttls k b;
          channels_same = λ c a. refl;
        };
      })

  pub finish-Refines :
      (ttl now : ℕ) (results : List Fields) (s : Redis)
      → IsTyped i s
      → Refines i s (Store.finish ttl now results) (finish ttl i now results s)
  unfolding finish Store.finish Store.exists execute
  finish-Refines ttl now results s t =
      Refines-both i plain s _ (stored ttl results) _
        (execute (set_key (results_key i) results ∷ expire_key (results_key i) ttl ∷ []))
        (hset-Refines i plain _ s (λ h. refl) t) (λ t' e. set_key-Refines ttl results _ t')
