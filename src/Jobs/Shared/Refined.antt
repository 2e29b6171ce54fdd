-- ===== src/Jobs/Shared/Refined.antt =====
-- pipeline/job_store.py: a command on the server that all jobs share does to its own job what the
-- method of Jobs/Store.antt does, and nothing to the keys and channels of others.
use inference_forge.Base.{◌≡◌, ◌≢◌, refl, ◌∙◌, ap, true, Option, none, some, List}
use inference_forge.Errors.{Result, ok, raise}
use inference_forge.Json.{Fields}
use inference_forge.Text.{Text}
use inference_forge.Jobs.Store
use inference_forge.Jobs.Store.{Hash, Job, Event, no_hash, no_job}
use inference_forge.Jobs.Shared.{
  Redis, Value, absent, hash, string, Command, job_key, event_channel, results_key, hset,
  hset_value, and_then, both, with_value,
}
use inference_forge.Jobs.Shared.Keys.{IsPlain, at_key-same, at_key-other, job_key-results_key}

abbrev pub hash_view : Value → Hash
hash_view absent = no_hash
hash_view (hash h) = h
hash_view (string _) = no_hash

abbrev pub text_view : Value → Option (List Fields)
text_view absent = none
text_view (hash _) = none
text_view (string t) = some t

-- What the server has of one job.
abbrev pub view : Text → Redis → Job
view i s = record {
  hash = hash_view (s.keys (job_key i));
  ttl = s.ttls (job_key i);
  results = text_view (s.keys (results_key i));
  results_ttl = s.ttls (results_key i);
  events = s.channels (event_channel i);
}

abbrev pub HasField : Hash → Type 0
HasField h = Store.exists (record no_job { hash = h }) ≡ true

-- The key of a job holds a hash with some field, and that of its results a text, if anything.
abbrev pub IsHash : Value → Type 0
IsHash absent = Unit
IsHash (hash h) = HasField h
IsHash (string _) = ⊥

abbrev pub IsString : Value → Type 0
IsString absent = Unit
IsString (hash _) = ⊥
IsString (string _) = Unit

pub record IsTyped (i : Text) (s : Redis) : Type 0 where
  pub job_typed : IsHash (s.keys (job_key i))
  pub results_typed : IsString (s.keys (results_key i))

-- What belongs to another job is as it was.
pub record Spares (i : Text) (s s' : Redis) : Type 0 where
  pub keys_same : (k : Text) → job_key i ≢ k → results_key i ≢ k → s'.keys k ≡ s.keys k
  pub ttls_same : (k : Text) → job_key i ≢ k → results_key i ≢ k → s'.ttls k ≡ s.ttls k
  pub channels_same : (c : Text) → event_channel i ≢ c → s'.channels c ≡ s.channels c

pub record Refines (i : Text) (s : Redis) (f : Job → Job) (x : Result (Unit {0}) × Redis)
    : Type 0 where
  pub works : x.0 ≡ ok tt
  pub viewed : view i x.1 ≡ f (view i s)
  pub typed : IsTyped i x.1
  pub spared : Spares i s x.1

Spares-trans : (i : Text) (s t u : Redis) → Spares i s t → Spares i t u → Spares i s u
Spares-trans i s t u p q = record {
  keys_same = λ k a b. q.keys_same k a b ∙ p.keys_same k a b;
  ttls_same = λ k a b. q.ttls_same k a b ∙ p.ttls_same k a b;
  channels_same = λ c a. q.channels_same c a ∙ p.channels_same c a;
}

module _ (i : Text) (plain : IsPlain i) where
  abbrev pub on_hash : (Hash → Hash) → Job → Job
  on_hash f j = record j { hash = f j.hash }

  hset-view :
      (f : Hash → Hash) (s : Redis)
      → view i (with_value (job_key i) (hash (f (hash_view (s.keys (job_key i))))) s)
        ≡ on_hash f (view i s)
  hset-view f s =
      rw
        (
          at_key-same (job_key i) (hash (f (hash_view (s.keys (job_key i))))) s.keys,
          at_key-other (job_key i) (hash (f (hash_view (s.keys (job_key i))))) s.keys
              (results_key i) (job_key-results_key i i plain),
        )
        refl

  written :
      (f : Hash → Hash) (s : Redis)
      → ((h : Hash) → HasField (f h))
      → IsTyped i s
      → Refines i s
          (on_hash f)
          (ok tt, with_value (job_key i) (hash (f (hash_view (s.keys (job_key i))))) s)
  written f s h t =
      let v = hash (f (hash_view (s.keys (job_key i)))) in
      let other = at_key-other (job_key i) v s.keys in
      record {
        works = refl;
        viewed = hset-view f s;
        typed = record {
          job_typed = rw (at_key-same (job_key i) v s.keys) (h (hash_view (s.keys (job_key i))));
          results_typed =
              rw (other (results_key i) (job_key-results_key i i plain)) t.results_typed;
        };
        spared = record {
          keys_same = λ k a b. other k a;
          ttls_same = λ k a b. refl;
          channels_same = λ c a. refl;
        };
      }

  hset_value-hash :
      (f : Hash → Hash) (v : Value) (s : Redis)
      → IsHash v
      → hset_value (job_key i) f v s ≡ (ok tt, with_value (job_key i) (hash (f (hash_view v))) s)
  hset_value-hash f absent s h = refl
  hset_value-hash f (hash g) s h = refl
  hset_value-hash f (string t) s h = absurd h

  pub hset-Refines :
      (f : Hash → Hash) (s : Redis)
      → ((h : Hash) → HasField (f h))
      → IsTyped i s
      → Refines i s (on_hash f) (hset (job_key i) f s)
  unfolding hset
  hset-Refines f s h t = rw (hset_value-hash f (s.keys (job_key i)) s t.job_typed) (written f s h t)

  pub Refines-and_then :
      (s : Redis) (f g : Job → Job) (x : Result (Unit {0}) × Redis) (k : Command)
      → Refines i s f x
      → (IsTyped i x.1 → view i x.1 ≡ f (view i s) → Refines i x.1 g (k x.1))
      → Refines i s (λ j. g (f j)) (and_then x k)
  Refines-and_then s f g (ok y, t) k r h =
      let q = h r.typed r.viewed in
      record {
        works = q.works;
        viewed = q.viewed ∙ ap g r.viewed;
        typed = q.typed;
        spared = Spares-trans i s t (k t).1 r.spared q.spared;
      }
  Refines-and_then s f g (raise e, t) k r h = cc r.works

  pub Refines-both :
      (s : Redis) (f g : Job → Job) (x : Result (Unit {0}) × Redis) (k : Command)
      → Refines i s f x
      → (IsTyped i x.1 → view i x.1 ≡ f (view i s) → Refines i x.1 g (k x.1))
      → Refines i s (λ j. g (f j)) (both x k)
  Refines-both s f g (ok y, t) k r h = Refines-and_then s f g (ok y, t) k r h
  Refines-both s f g (raise e, t) k r h = cc r.works
