-- ===== src/Schemas/Tests.antt =====
-- api/schemas.py: the validation at work.
use inference_forge.Base.{◌≡◌, ◌≤◌, none, List, [], ◌∷◌, All}
use inference_forge.Text.{Text, codes}
use inference_forge.Schemas.{Limits, IsTicket, validate_request, validate_request_lem}

abbrev limits : Limits
limits = record { max_tickets_per_request = 500; max_ticket_chars = 2000 }

abbrev tickets : List Text
tickets = codes "The screen is black" ∷ []

validate_request_lem_example :
    (validate_request limits tickets ≡ none → (1 ≤ 1) × (1 ≤ 500) × All (IsTicket limits) tickets)
    × (1 ≤ 1 → 1 ≤ 500 → All (IsTicket limits) tickets → validate_request limits tickets ≡ none)
validate_request_lem_example = validate_request_lem limits tickets
