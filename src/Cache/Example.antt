-- ===== src/Cache/Example.antt =====
-- pipeline/cache.py: a server that is an association list.
use inference_forge.Base.{
  ◌≡◌, refl, sym, ap, ◌∙◌, Bool, true, false, Option, none, some, List, [], ◌∷◌,
}
use inference_forge.Errors.{ok}
use inference_forge.Json.{
  text, object, Fields, done, field, same_text, same_text_refl, same_text-eq,
}
use inference_forge.Text.{Text, codes}
use inference_forge.Cache.{Redis, Library, Cache}
use inference_forge.Cache.Laws.{Serves}

abbrev pub Entries : Type 0
Entries = List (Text × Text)

abbrev pub lookup : Text → Entries → Option Text
lookup key [] = none
lookup key ((k, v) ∷ es) = elim (same_text key k) [ true ↦ some v | false ↦ lookup key es ]

abbrev pub add_new : Option Text → Text → Text → Entries → Entries
add_new none key value es = (key, value) ∷ es
add_new (some _) key value es = es

abbrev found : Option Text → Bool
found none = false
found (some _) = true

pub lookup-new : (key value : Text) (es : Entries) → lookup key ((key, value) ∷ es) ≡ some value
lookup-new key value es = rw (lookup, same_text_refl) refl

lookup-other :
    (b : Bool) (key other value old : Text) (es : Entries)
    → same_text key other ≡ b
    → lookup other es ≡ none
    → lookup key es ≡ some old
    → lookup key ((other, value) ∷ es) ≡ some old
lookup-other true key other value old es e n h =
    cc (sym h ∙ ap (λ k. lookup k es) (same_text-eq key other e) ∙ n)
lookup-other false key other value old es e n h = rw (lookup, e) h

pub keeps_old :
    (o : Option Text) (key other value old : Text) (es : Entries)
    → lookup other es ≡ o
    → lookup key es ≡ some old
    → lookup key (add_new o other value es) ≡ some old
keeps_old none key other value old es n h =
    lookup-other (same_text key other) key other value old es refl n h
keeps_old (some v) key other value old es n h = h

abbrev pub server : Redis Entries
server = record {
  get = λ key es. (ok (lookup key es), es);
  set_nx = λ key value ex es. (ok tt, add_new (lookup key es) key value es);
  exists = λ key es. (ok (found (lookup key es)), es);
}

abbrev pub serves : Serves server
serves = record {
  held = lookup;
  get-held = λ key s. refl;
  set-ok = λ key value ex s p. refl;
  exists-same = λ key s. refl;
  set-new = λ key value ex s p h. rw h (lookup-new key value s);
  set-old = λ key other value old ex s h. keeps_old (lookup other s) key other value old s refl h;
}

abbrev pub answer : Fields
answer = field (codes "category") (text (codes "billing")) done

-- A dump that is read back as the one answer stored.
abbrev pub library : Library
library = record {
  sha256 = λ t. t;
  lower = λ t. t;
  loads = λ t. ok (object answer);
  dumps = λ d. codes "x";
  dedup_ttl_seconds = 86400;
}

abbrev pub empty_cache : Cache Entries
empty_cache = record { redis = []; hits = 0; misses = 0; processed = 0; log = [] }
