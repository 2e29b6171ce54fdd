-- ===== src/Cache/Laws.antt =====
-- pipeline/cache.py: what set stores and get returns, over a Redis server that keeps its promises.
use inference_forge.Base.{
  ℕ, List, [], ◌∷◌, ◌<◌, ◌≡◌, refl, sym, ap, arith, Option, none, some, ◌++◌,
}
use inference_forge.Errors.{ok}
use inference_forge.Json.{object, Fields}
use inference_forge.Text.{Text, codes, strip}
use inference_forge.Cache.{
  Redis, Library, Cache, answered, get, set, exists, ticket_key, ticket_hash, maybe_log_rate,
}
use inference_forge.Cache.Counts.{Op, get_op, set_op, exists_op, run_op, run_ops}

-- GET, EXISTS and SET NX on a server that is up, with no key that expires or is evicted meanwhile:
-- `held` is what the server has under a key. SET NX with a time to live of one second or more adds
-- a value where there is none, and changes no key that has one.
pub record Serves {ℓ} {S : Type ℓ} (redis : Redis S) : Type ℓ where
  pub held : Text → S → Option Text
  pub get-held : (key : Text) (s : S) → redis.get key s ≡ (ok (held key s), s)
  pub set-ok :
      (key value : Text) (ex : ℕ) (s : S) → 0 < ex → (redis.set_nx key value ex s).0 ≡ ok tt
  pub exists-same : (key : Text) (s : S) → (redis.exists key s).1 ≡ s
  pub set-new :
      (key value : Text) (ex : ℕ) (s : S)
      → 0 < ex
      → held key s ≡ none
      → held key (redis.set_nx key value ex s).1 ≡ some value
  pub set-old :
      (key other value old : Text) (ex : ℕ) (s : S)
      → held key s ≡ some old
      → held key (redis.set_nx other value ex s).1 ≡ some old

-- Two tickets that differ in case and surrounding white space only.
abbrev pub SameTicket : Library → Text → Text → Type 0
SameTicket lib a b = lib.lower (strip a) ≡ lib.lower (strip b)

pub ticket_key-same :
    (lib : Library) (a b : Text) → SameTicket lib a b → ticket_key lib a ≡ ticket_key lib b
unfolding ticket_key ticket_hash
ticket_key-same lib a b e = ap (λ t. codes "cache:" ++ lib.sha256 t) e

module _ {ℓ} {S : Type ℓ} (redis : Redis S) (lib : Library) (serves : Serves redis) where
  pub answered-redis :
      (r : Option Text) (s : S) (c : Cache S) → (answered redis lib (ok r, s) c).1.redis ≡ s
  unfolding maybe_log_rate
  answered-redis none s c = ground arith
  answered-redis (some raw) s c = ground arith

  -- A lookup leaves the server as it is.
  pub get-redis : (ticket : Text) (c : Cache S) → (get redis lib ticket c).1.redis ≡ c.redis
  unfolding get
  get-redis ticket c = rw serves.get-held (answered-redis _ c.redis c)

  get-Held :
      (ticket : Text) (c : Cache S) (raw : Text)
      → serves.held (ticket_key lib ticket) c.redis ≡ some raw
      → (get redis lib ticket c).0 ≡ (answered redis lib (ok (some raw), c.redis) c).0
  unfolding get
  get-Held ticket c raw h = rw (serves.get-held, h) refl

  -- What the server has under a key stays there, whatever the cache is asked to do.
  run_op-held :
      (key raw : Text) (op : Op) (c : Cache S)
      → serves.held key c.redis ≡ some raw
      → serves.held key (run_op redis lib op c).redis ≡ some raw
  unfolding run_op get set exists
  run_op-held key raw (get_op t) c h = rw (get-redis t c) h
  run_op-held key raw (set_op t d) c h =
      serves.set-old key (ticket_key lib t) (lib.dumps d) raw lib.dedup_ttl_seconds c.redis h
  run_op-held key raw (exists_op t) c h = rw (serves.exists-same (ticket_key lib t) c.redis) h

  run_ops-held :
      (key raw : Text) (ops : List Op) (c : Cache S)
      → serves.held key c.redis ≡ some raw
      → serves.held key (run_ops redis lib ops c).redis ≡ some raw
  unfolding run_ops
  run_ops-held key raw [] c h = h
  run_ops-held key raw (op ∷ ops) c h =
      run_ops-held key raw ops (run_op redis lib op c) (run_op-held key raw op c h)

  -- With a server that is up, a time to live of one second or more, and no key that expires
  -- meanwhile: the first result stored for a ticket that has none is what get returns behind any
  -- gets, sets and exists for any tickets, for the ticket in any case and with any white space
  -- around it.
  pub get-run_ops-set :
      (a b : Text) (first : Fields) (ops : List Op) (c : Cache S)
      → 0 < lib.dedup_ttl_seconds
      → lib.loads (lib.dumps first) ≡ ok (object first)
      → serves.held (ticket_key lib a) c.redis ≡ none
      → SameTicket lib a b
      → (get redis lib b (run_ops redis lib ops (set redis lib a first c).1)).0
        ≡ ok (some (object first))
  unfolding get set
  get-run_ops-set a b first ops c positive l absent ab =
      let k = ticket_key lib a in
      let stored =
        serves.set-new k (lib.dumps first) lib.dedup_ttl_seconds c.redis positive absent in
      let kept = run_ops-held k (lib.dumps first) ops (set redis lib a first c).1 stored in
      rw (sym (ticket_key-same lib a b ab), serves.get-held, kept, l) refl
