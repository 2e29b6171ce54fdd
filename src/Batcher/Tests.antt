-- ===== src/Batcher/Tests.antt =====
-- pipeline/batcher.py: a batcher that is filled and drained, and the theorems at these tickets.
use mathlib.Core.List.{Perm}
use inference_forge.Base.{ℕ, zero, suc, ◌+◌, ◌≡◌, refl, List, [], ◌∷◌, length, map, All}
use inference_forge.Text.{Text, split}
use inference_forge.Estimator.{classify, breakdown, simple, medium, complex}
use inference_forge.Batcher.{
  collect, put_all, enqueue_many, drain_batch, drain_from, drain_all_batches,
}
use inference_forge.Batcher.Drained.{IsReady}
use inference_forge.Batcher.Rounds.{all_entries, IsHomogeneous, IsUrgentFirst, batches_for}
use inference_forge.Batcher.Whole.{
  enumerate, filled, drained, drained-perm, drained_batches, length-drained, empty,
  enqueue_many-IsReady,
}
use inference_forge.Batcher.Ordered.{ordered}

-- `n` one-letter words.
abbrev words : ℕ → Text
words zero = []
words (suc n) = b'a' ∷ b' ' ∷ words n

abbrev tickets : List Text
tickets = words 3 ∷ words 20 ∷ words 61 ∷ words 14 ∷ words 15 ∷ []

program : Unit {0}
unfolding split classify breakdown put_all collect enqueue_many drain_batch drain_from
    drain_all_batches
program = tt

drained_indices :
    map (λ b. b.indices) (drained ordered tickets).0 ≡ (2 ∷ []) ∷ (4 ∷ 1 ∷ []) ∷ (3 ∷ 0 ∷ []) ∷ []
unfolding program
drained_indices = refl

drained-perm_example :
    Perm (all_entries (drained ordered tickets).0) (enumerate 0 tickets)
    × ((drained ordered tickets).1.queue ≡ [])
drained-perm_example = drained-perm ordered tickets

drained_batches_example :
    All IsHomogeneous (drained ordered tickets).0 × IsUrgentFirst (drained ordered tickets).0
drained_batches_example = drained_batches ordered tickets

length-drained_example :
    let bd = breakdown tickets in
    length (drained ordered tickets).0
    ≡ batches_for bd.simple_count simple
      + batches_for bd.medium_count medium
      + batches_for bd.complex_count complex
length-drained_example = length-drained ordered tickets

ready : IsReady ordered (filled ordered tickets)
ready =
    enqueue_many-IsReady ordered tickets 0 empty
      (record { heap = tt; prioritized = tt; depth_shows = refl })
