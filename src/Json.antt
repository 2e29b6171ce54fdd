-- ===== src/Json.antt =====
-- The values of the json module, and Python's dict of them.
use inference_forge.Base.{
  ℕ, ◌≡◌, refl, inl, inr, Bool-cases, Bool, true, false, Option, none, some, [], ◌∷◌, ◌==◌, ◌&&◌,
  if◌then◌else◌, arith,
}
use inference_forge.Text.{Text}

-- A number that is not a natural one keeps its literal.
mutual
  pub data Json : Type 0 where
    null : Json
    boolean : Bool → Json
    natural : ℕ → Json
    number : Text → Json
    text : Text → Json
    array : Items → Json
    object : Fields → Json

  pub data Items : Type 0 where
    end : Items
    item : Json → Items → Items

  -- A dict, in its order, each key once.
  pub data Fields : Type 0 where
    done : Fields
    field : Text → Json → Fields → Fields

abbrev pub same_text : Text → Text → Bool
same_text [] [] = true
same_text (c ∷ cs) (d ∷ ds) = c == d && same_text cs ds
same_text [] (d ∷ ds) = false
same_text (c ∷ cs) [] = false

-- d.get(key)
abbrev pub get : Text → Fields → Option Json
get key done = none
get key (field k v rest) = if same_text key k then some v else get key rest

-- d[key] = value, and {**d, key: value}
abbrev pub put : Text → Json → Fields → Fields
put key value done = field key value done
put key value (field k v rest) =
    let later = put key value rest in
    if same_text key k then field k value rest else field k v later

-- {k: v for k, v in d.items() if k not in (key,)}
abbrev pub without : Text → Fields → Fields
without key done = done
without key (field k v rest) =
    let later = without key rest in if same_text key k then later else field k v later

pub same_text_refl : (t : Text) → same_text t t ≡ true
same_text_refl [] = refl
same_text_refl (c ∷ cs) = ground (arith, same_text_refl cs)

pub same_text-eq : (s t : Text) → same_text s t ≡ true → s ≡ t
same_text-eq [] [] h = refl
same_text-eq (c ∷ cs) (d ∷ ds) h = ground (arith, same_text-eq cs ds)
same_text-eq [] (d ∷ ds) h = cc
same_text-eq (c ∷ cs) [] h = cc

pub get-put : (key : Text) (value : Json) (d : Fields) → get key (put key value d) ≡ some value
get-put key value done = rw same_text_refl refl
get-put key value (field k v rest) = ground (arith, get-put key value rest, same_text_refl key)

pub get-put-other :
    (key other : Text) (value : Json) (d : Fields)
    → same_text other key ≡ false
    → get other (put key value d) ≡ get other d
get-put-other key other value done h = rw h refl
get-put-other key other value (field k v rest) h = elim (Bool-cases (same_text key k)) [
  | inl e ↦ ground (arith, same_text-eq key k e)
  | inr e ↦ rw e (ground (arith, get-put-other key other value rest h))
]
