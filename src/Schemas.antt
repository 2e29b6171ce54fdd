-- ===== src/Schemas.antt =====
-- api/schemas.py: the validation of a ProcessRequest; Responses.antt has classes of the answers.
pub mod Responses
mod Tests
use inference_forge.Base.{
  ℕ, zero, suc, ◌+◌, ◌≡◌, ◌≤◌, ◌<◌, ◌⊎◌, refl, sym, ◌∙◌, ap, Bool-cases, inl, inr, Bool, true,
  false, Option, none, some, List, [], ◌∷◌, ◌++◌, ltb, leb, length, All, if◌then◌else◌, arith,
}
use inference_forge.Text.{Text, is_empty, strip}

-- The bounds of the list are Field's min_length and max_length; the other two are ValueErrors with
-- the index, and of a long ticket with its length.
pub data Invalid : Type 0 where
  too_few : Invalid
  too_many : Invalid
  too_long : (index got : ℕ) → Invalid
  blank : (index : ℕ) → Invalid

pub record Limits : Type 0 where
  pub max_tickets_per_request : ℕ
  pub max_ticket_chars : ℕ

module _ (limits : Limits) where
  -- The loop of validate_ticket_lengths from an index on: the first error, if there is one.
  unfoldable pub validate_from : ℕ → List Text → Option Invalid
  validate_from i [] = none
  validate_from i (t ∷ ts) =
      let rest = validate_from (suc i) ts in
      if ltb limits.max_ticket_chars (length t)
      then some (too_long i (length t))
      else if is_empty (strip t)
      then some (blank i)
      else rest

  unfoldable pub validate_request : List Text → Option Invalid
  validate_request tickets =
      if ltb (length tickets) 1
      then some too_few
      else if ltb limits.max_tickets_per_request (length tickets)
      then some too_many
      else validate_from 0 tickets

  -- A ticket that may be processed: short enough, and with more than white space.
  pub record IsTicket (t : Text) : Type 0 where
    pub short : length t ≤ limits.max_ticket_chars
    pub present : is_empty (strip t) ≡ false

  validate_from-none : (i : ℕ) (ts : List Text) → validate_from i ts ≡ none → All IsTicket ts
  unfolding validate_from
  validate_from-none i [] h = tt
  validate_from-none i (t ∷ ts) h =
      let short : length t ≤ limits.max_ticket_chars = ground arith in
      let present : is_empty (strip t) ≡ false = ground arith in
      let rest : validate_from (suc i) ts ≡ none = ground arith in
      (record { short = short; present = present }, validate_from-none (suc i) ts rest)

  validate_from-all : (i : ℕ) (ts : List Text) → All IsTicket ts → validate_from i ts ≡ none
  unfolding validate_from
  validate_from-all i [] h = refl
  validate_from-all i (t ∷ ts) (v, vs) =
      let rest = validate_from-all (suc i) ts vs in
      let s = v.short in let p = v.present in ground arith

  -- A request is accepted exactly if it has from one to max_tickets_per_request tickets, each
  -- short enough and with more than white space.
  pub validate_request_lem :
      (ts : List Text)
      → (validate_request ts ≡ none
          → (1 ≤ length ts) × (length ts ≤ limits.max_tickets_per_request) × All IsTicket ts)
        × (1 ≤ length ts
            → length ts ≤ limits.max_tickets_per_request
            → All IsTicket ts
            → validate_request ts ≡ none)
  unfolding validate_request
  validate_request_lem ts = (
    λ h. (
      ground arith,
      ground arith,
      (let rest : validate_from 0 ts ≡ none = ground arith in validate_from-none 0 ts rest),
    ),
    λ a b v. let rest = validate_from-all 0 ts v in ground arith,
  )
