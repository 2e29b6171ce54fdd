-- ===== src/Cache/Counts.antt =====
-- pipeline/cache.py: the counters of DeduplicationCache and the log of its hit rate.
use inference_forge.Base.{
  suc, ◌+◌, ◌/◌, ◌%◌, ◌≡◌, inl, inr, Bool-cases, Option, none, some, List, [], ◌∷◌, ◌==◌, length,
  arith,
}
use inference_forge.Errors.{Result, ok, raise}
use inference_forge.Json.{Fields}
use inference_forge.Text.{Text}
use inference_forge.Cache.{
  Redis, Library, Cache, maybe_log_rate, answered, get, set, exists, ticket_key,
}

pub data Op : Type 0 where
  get_op : Text → Op
  set_op : Text → Fields → Op
  exists_op : Text → Op

module _ {ℓ} {S : Type ℓ} where
  -- A cache on its own process: every request is a hit or a miss and one in 50 has logged a rate.
  pub record IsValid (c : Cache S) : Type 0 where
    pub total : c.hits + c.misses ≡ c.processed
    pub logged : length c.log ≡ c.processed / 50

  logged-IsValid :
      (c : Cache S)
      → c.hits + c.misses ≡ suc c.processed
      → length c.log ≡ c.processed / 50
      → IsValid (maybe_log_rate (record c { processed = suc c.processed }))
  unfolding maybe_log_rate
  logged-IsValid c t l = elim (Bool-cases (suc c.processed % 50 == 0)) [
    | inl z ↦ rw z (record { total = t; logged = ground arith })
    | inr z ↦ rw z (record { total = t; logged = ground arith })
  ]

module _ {ℓ} {S : Type ℓ} (redis : Redis S) (lib : Library) where
  unfoldable pub run_op : Op → Cache S → Cache S
  run_op (get_op t) c = (get redis lib t c).1
  run_op (set_op t d) c = (set redis lib t d c).1
  run_op (exists_op t) c = (exists redis lib t c).1

  unfoldable pub run_ops : List Op → Cache S → Cache S
  run_ops [] c = c
  run_ops (op ∷ ops) c = run_ops ops (run_op op c)

  answered-IsValid :
      (r : Result (Option Text) × S) (c : Cache S) → IsValid c → IsValid (answered redis lib r c).1
  answered-IsValid (raise e, s) c v = record { total = v.total; logged = v.logged }
  answered-IsValid (ok (some raw), s) c v =
      logged-IsValid (record c { redis = s; hits = suc c.hits }) (omega (arith, v.total)) v.logged
  answered-IsValid (ok none, s) c v =
      logged-IsValid (record c { redis = s; misses = suc c.misses }) (omega (arith, v.total))
        v.logged

  run_op-IsValid : (op : Op) (c : Cache S) → IsValid c → IsValid (run_op op c)
  unfolding run_op get set exists
  run_op-IsValid (get_op t) c v = answered-IsValid (redis.get (ticket_key lib t) c.redis) c v
  run_op-IsValid (set_op t d) c v = record { total = v.total; logged = v.logged }
  run_op-IsValid (exists_op t) c v = record { total = v.total; logged = v.logged }

  -- After any operations, whatever Redis answers: hits and misses are the requests processed, and
  -- the hit rate was logged once for each 50 of these.
  pub run_ops-IsValid : (ops : List Op) (c : Cache S) → IsValid c → IsValid (run_ops ops c)
  unfolding run_ops
  run_ops-IsValid [] c v = v
  run_ops-IsValid (op ∷ ops) c v = run_ops-IsValid ops (run_op op c) (run_op-IsValid op c v)
