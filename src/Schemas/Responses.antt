-- ===== src/Schemas/Responses.antt =====
-- api/schemas.py: what the classes of results and of the final event take, of the values of json.
--
-- A field takes the values of its type that pydantic need not convert. A field with a default may be
-- missing, one that may be None may be null, and fields that a class does not name are ignored.
use inference_forge.Base.{Bool, true, false, Option, none, some, ◌&&◌}
use inference_forge.Json.{
  Json, Items, Fields, null, boolean, natural, number, text, array, object, item, end, get,
}
use inference_forge.Text.{Text, codes}

abbrev pub is_int : Json → Bool
is_int (natural _) = true
is_int _ = false

abbrev pub is_float : Json → Bool
is_float (natural _) = true
is_float (number _) = true
is_float _ = false

abbrev pub is_str : Json → Bool
is_str (text _) = true
is_str _ = false

abbrev pub is_bool : Json → Bool
is_bool (boolean _) = true
is_bool _ = false

-- list[dict[str, Any]]
abbrev pub are_dicts : Items → Bool
are_dicts end = true
are_dicts (item (object _) rest) = are_dicts rest
are_dicts (item _ rest) = false

abbrev pub is_dicts : Json → Bool
is_dicts (array items) = are_dicts items
is_dicts _ = false

abbrev pub or_none : (Json → Bool) → Json → Bool
or_none test null = true
or_none test v = test v

abbrev pub has : Option Json → (Json → Bool) → Bool
has none test = false
has (some v) test = test v

abbrev pub may_have : Option Json → (Json → Bool) → Bool
may_have none test = true
may_have (some v) test = test v

abbrev pub required : Text → (Json → Bool) → Fields → Bool
required key test d = has (get key d) test

abbrev pub with_default : Text → (Json → Bool) → Fields → Bool
with_default key test d = may_have (get key d) test

unfoldable pub ticket_result : Fields → Bool
ticket_result d =
    with_default (codes "ticket") (or_none is_str) d
    && with_default (codes "category") (or_none is_str) d
    && with_default (codes "priority") (or_none is_str) d
    && with_default (codes "summary") (or_none is_str) d
    && with_default (codes "cache_hit") is_bool d
    && with_default (codes "tokens") is_int d

unfoldable pub failed_ticket : Fields → Bool
failed_ticket d =
    with_default (codes "ticket") (or_none is_str) d
    && required (codes "error") is_str d
    && with_default (codes "tokens") is_int d

unfoldable pub job_stats : Fields → Bool
job_stats d =
    required (codes "total_tokens") is_int d
    && required (codes "cost_usd") is_float d
    && required (codes "p50_ms") is_float d
    && required (codes "p95_ms") is_float d
    && required (codes "p99_ms") is_float d
    && required (codes "cache_hit_rate") is_float d
    && required (codes "failure_rate") is_float d
    && required (codes "duration_seconds") is_float d

abbrev pub is_job_stats : Json → Bool
is_job_stats (object d) = job_stats d
is_job_stats _ = false

unfoldable pub stream_done_event : Fields → Bool
stream_done_event d =
    with_default (codes "status") is_str d
    && required (codes "results") is_dicts d
    && required (codes "stats") is_job_stats d
