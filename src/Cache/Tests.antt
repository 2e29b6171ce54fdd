-- ===== src/Cache/Tests.antt =====
-- pipeline/cache.py: its theorems on a server that is an association list.
use inference_forge.Base.{◌≡◌, refl, arith, some, List, [], ◌∷◌}
use inference_forge.Errors.{ok}
use inference_forge.Json.{object, done}
use inference_forge.Text.{codes, strip, lstrip, rstrip, is_space}
use inference_forge.Cache.{get, set}
use inference_forge.Cache.Example.{server, serves, answer, library, empty_cache}
use inference_forge.Cache.Laws.{get-run_ops-set}
use inference_forge.Cache.Counts.{Op, get_op, set_op, exists_op, run_ops}

right : strip (codes "a") ≡ strip (codes "a ")
unfolding strip lstrip rstrip is_space
right = refl

abbrev ops : List Op
ops = set_op (codes " a") done ∷ exists_op (codes "b") ∷ get_op (codes "a") ∷ []

get-run_ops-set_example :
    (get server library
      (codes "a ")
      (run_ops server library ops (set server library (codes "a") answer empty_cache).1)).0
    ≡ ok (some (object answer))
get-run_ops-set_example =
    get-run_ops-set server library serves (codes "a") (codes "a ") answer ops empty_cache
      (omega arith) refl refl right
