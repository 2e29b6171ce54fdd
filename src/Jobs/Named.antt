-- ===== src/Jobs/Named.antt =====
-- api/routes.py: the tickets that the results of a job name.
use mathlib.Core.List.{append-nil, append_assoc, Perm}
use mathlib.Core.List.Perm
use inference_forge.Base.{
  ℕ, suc, ◌+◌, ◌≡◌, refl, sym, ◌∙◌, ap, Option, none, some, List, [], ◌∷◌, ◌++◌, map, length, All,
  arith,
}
use inference_forge.Errors.{Error, Result, ok, raise}
use inference_forge.Json.{Fields, put, text}
use inference_forge.Text.{Text, codes}
use inference_forge.Batcher.{PriorityQueue, Batch}
use inference_forge.Batcher.Drained.{Entry, zip_entries, entries}
use inference_forge.Batcher.Rounds.{IsHomogeneous, all_entries}
use inference_forge.Batcher.Whole.{enumerate, drained, drained-perm, drained_batches}
use inference_forge.Estimator.Eta.{EtaEstimator, update}
use inference_forge.Jobs.Shares.{ticket_of, name_of, ticket_of-put, map-append}
use inference_forge.Jobs.Process.{
  Env, Round, Tally, add_result, counted, tally, advance, tallied, received, one_round, and_next,
  rounds,
}

abbrev pub texts_in : List Batch → List Text
texts_in [] = []
texts_in (b ∷ bs) = b.tickets ++ texts_in bs

counted-named :
    (t : Text) (ts : List Text) (r : Fields) (o : Option Tally) (u : Tally)
    → ((v : Tally) → o ≡ some v → map ticket_of v.results ≡ map name_of ts)
    → counted (put (codes "ticket") (text t) r) o ≡ some u
    → map ticket_of u.results ≡ map name_of (t ∷ ts)
counted-named t ts r none u h e = cc e
counted-named t ts r (some v) u h e =
    let same : u ≡ add_result (put (codes "ticket") (text t) r) v = cc e in
    rw (same, ticket_of-put t r) (ap (λ l. name_of t ∷ l) (h v refl))

tally-named :
    (ts : List Text) (rs : List Fields) (u : Tally)
    → tally ts rs ≡ some u
    → map ticket_of u.results ≡ map name_of ts
unfolding tally
tally-named [] [] u e =
    let same : u ≡ record { results = []; completed = 0; failed = 0; hits = 0 } = cc e in
    rw same refl
tally-named [] (r ∷ rs) u e = cc e
tally-named (t ∷ ts) [] u e = cc e
tally-named (t ∷ ts) (r ∷ rs) u e =
    counted-named t ts r (tally ts rs) u (λ v f. tally-named ts rs v f) e

module _ (env : Env) (total : ℕ) where
  -- What is new among the results names these tickets, in their order.
  pub record Names (ts : List Text) (r r' : Round) : Type 0 where
    pub new : List Fields
    pub all : r'.all_results ≡ r.all_results ++ new
    pub named : map ticket_of new ≡ map name_of ts

  tallied-Names :
      (b : Batch) (rs : List Fields) (o : Option Tally) (e : EtaEstimator) (r r' : Round)
      → tally b.tickets rs ≡ o
      → tallied env total b o e r ≡ ok r'
      → Names b.tickets r r'
  tallied-Names b rs none e r r' f h = cc h
  tallied-Names b rs (some t) e r r' f h =
      let same : r' ≡ advance env total b t e r = cc h in
      record {
        new = t.results;
        all = ap (λ (x : Round). x.all_results) same;
        named = tally-named b.tickets rs t f;
      }

  received-Names :
      (i : ℕ) (b : Batch) (x : Result (List Fields)) (r r' : Round)
      → received env total i b x r ≡ ok r'
      → Names b.tickets r r'
  received-Names i b (raise e) r r' h = cc h
  received-Names i b (ok rs) r r' h =
      tallied-Names b rs (tally b.tickets rs) (update (env.duration i) r.estimator) r r' refl h

  next-Names :
      (i : ℕ) (b : Batch) (bs : List Batch) (r r' : Round) (x : Result Round)
      → received env total i b (env.process_batch i b.tickets) r ≡ x
      → ((r1 : Round) → rounds env total (suc i) bs r1 ≡ (none, r') → Names (texts_in bs) r1 r')
      → and_next env total (rounds env total (suc i) bs) r x ≡ (none, r')
      → Names (texts_in (b ∷ bs)) r r'
  next-Names i b bs r r' (raise e) got later g = cc (ap (λ (y : Option Error × Round). y.0) g)
  next-Names i b bs r r' (ok r1) got later g =
      let first = received-Names i b (env.process_batch i b.tickets) r r1 got in
      let rest = later r1 g in
      record {
        new = first.new ++ rest.new;
        all =
            rest.all
            ∙ ap (λ l. l ++ rest.new) first.all
            ∙ append_assoc r.all_results first.new rest.new;
        named =
            map-append ticket_of first.new rest.new
            ∙ ap (λ l. l ++ map ticket_of rest.new) first.named
            ∙ ap (λ l. map name_of b.tickets ++ l) rest.named
            ∙ sym (map-append name_of b.tickets (texts_in bs));
      }

  pub rounds-Names :
      (i : ℕ) (bs : List Batch) (r r' : Round)
      → rounds env total i bs r ≡ (none, r')
      → Names (texts_in bs) r r'
  unfolding rounds one_round
  rounds-Names i [] r r' h =
      let same : r' ≡ r = ap (λ (x : Option Error × Round). x.1) (sym h) in
      record { new = []; all = rw (same, append-nil) refl; named = refl }
  rounds-Names i (b ∷ bs) r r' h =
      next-Names i b bs r r' (one_round env total i b r) refl
        (λ r1 g. rounds-Names (suc i) bs r1 r' g) h

zip_entries-tickets :
    (ts : List Text) (is : List ℕ)
    → length ts ≡ length is
    → map (λ (e : Entry). e.0) (zip_entries ts is) ≡ ts
zip_entries-tickets [] is h = refl
zip_entries-tickets (t ∷ ts) [] h = absurd (omega (arith, h))
zip_entries-tickets (t ∷ ts) (i ∷ is) h =
    ap (λ l. t ∷ l) (zip_entries-tickets ts is (omega (arith, h)))

all_entries-texts_in :
    (bs : List Batch)
    → All IsHomogeneous bs
    → map (λ (e : Entry). e.0) (all_entries bs) ≡ texts_in bs
all_entries-texts_in [] h = refl
all_entries-texts_in (b ∷ bs) (h, hs) =
    map-append (λ (e : Entry). e.0) (entries b) (all_entries bs)
    ∙ ap (λ l. l ++ map (λ (e : Entry). e.0) (all_entries bs))
        (zip_entries-tickets b.tickets b.indices h.paired)
    ∙ ap (λ l. b.tickets ++ l) (all_entries-texts_in bs hs)

enumerate-tickets : (i : ℕ) (ts : List Text) → map (λ (e : Entry). e.0) (enumerate i ts) ≡ ts
enumerate-tickets i [] = refl
enumerate-tickets i (t ∷ ts) = ap (λ l. t ∷ l) (enumerate-tickets (i + 1) ts)

-- The batches of a batcher hold the tickets that were put into it.
pub drained-texts : (pq : PriorityQueue) (ts : List Text) → Perm (texts_in (drained pq ts).0) ts
drained-texts pq ts =
    rw (all_entries-texts_in (drained pq ts).0 (drained_batches pq ts).0, enumerate-tickets 0 ts) at
      (Perm.map (λ (e : Entry). e.0) (drained-perm pq ts).0)
