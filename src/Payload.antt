-- ===== src/Payload.antt =====
-- The bodies of queue messages (HandlerPayload of app/handlers.py, and the dicts that handlers
-- enqueue), and how handlers read ids and numbers from them.
use job_match_pipeline.Prelude.{
  ℕ, max, ◌≤◌, String, ◌≡◌, Bool, true, false, not, Option, none, some, List, [], ◌∷◌, arith,
  nat_beq, if◌then◌else◌, ◌==◌, string_eq, is_empty,
}
use job_match_pipeline.Prelude.Text.{truthy}

-- Primary keys; `uuid.UUID` values are compared and never taken apart.
abbrev pub Uuid : Type 0
Uuid = ℕ

-- Python's `int`; `negsuc n` is -(n + 1).
pub data ℤ : Type 0 where
  pos : ℕ → ℤ
  negsuc : ℕ → ℤ

-- A JSON value of a message. Handlers read texts, integers and lists of texts.
pub data Value : Type 0 where
  null : Value
  flag : Bool → Value
  number : ℤ → Value
  text : String → Value
  texts : List String → Value

abbrev pub Payload : Type 0
Payload = List (String × Value)

-- Conversions of Python's standard library that read text: `uuid.UUID(str(value))` and
-- `int(text)`, with `none` for a ValueError, and `str` of a UUID and of a value that is no text.
pub record Builtins : Type 0 where
  pub uuid_of_text : String → Option Uuid
  pub str_of_uuid : Uuid → String
  pub str_of_value : Value → String
  pub int_of_text : String → Option ℤ
  -- `uuid.UUID(str(u)) == u`
  pub uuid-str : (u : Uuid) → uuid_of_text (str_of_uuid u) ≡ some u
  -- `uuid.UUID("")` raises ValueError
  pub uuid-empty : uuid_of_text "" ≡ none

-- `payload.get(key)`; a missing key and a null are both None.
unfoldable pub lookup : String → Payload → Value
lookup key [] = null
lookup key ((k, v) ∷ rest) = let found = lookup key rest in if k == key then v else found

-- `bool(value)`
abbrev pub is_truthy : Value → Bool
is_truthy null = false
is_truthy (flag b) = b
is_truthy (number (pos n)) = not (nat_beq n 0)
is_truthy (number (negsuc n)) = true
is_truthy (text s) = truthy s
is_truthy (texts l) = not (is_empty l)

-- `value in (None, "")`
abbrev pub is_blank : Value → Bool
is_blank null = true
is_blank (text s) = s == ""
is_blank _ = false

-- `max(1, value)` as a number of ℕ.
abbrev pub at_least_one : ℤ → ℕ
at_least_one (pos n) = max 1 n
at_least_one (negsuc n) = 1

abbrev pub attempt_from : Option ℤ → ℕ
attempt_from none = 1
attempt_from (some n) = at_least_one n

attempt_from_pos : (o : Option ℤ) → 1 ≤ attempt_from o
attempt_from_pos none = omega arith
attempt_from_pos (some (pos n)) = omega arith
attempt_from_pos (some (negsuc n)) = omega arith

module _ (py : Builtins) where
  -- `str(value)`
  abbrev pub to_str : Value → String
  to_str (text s) = s
  to_str v = py.str_of_value v

  -- `_parse_uuid`
  unfoldable pub parse_uuid : Value → Option Uuid
  parse_uuid v = if is_blank v then none else py.uuid_of_text (to_str v)

  -- `int(value)`, with `none` for a TypeError or a ValueError.
  abbrev pub to_int : Value → Option ℤ
  to_int null = none
  to_int (flag true) = some (pos 1)
  to_int (flag false) = some (pos 0)
  to_int (number n) = some n
  to_int (text s) = py.int_of_text s
  to_int (texts l) = none

  -- `_attempt` of generate/service.py: one, if the payload has no number.
  unfoldable pub read_attempt : Value → ℕ
  read_attempt null = 1
  read_attempt v = attempt_from (to_int v)

  -- An id that a handler enqueued is the id that the next handler reads.
  pub parse_uuid-str : (u : Uuid) → parse_uuid (text (py.str_of_uuid u)) ≡ some u
  unfolding parse_uuid
  parse_uuid-str u =
      ground
        (arith, py.uuid-str u, py.uuid-empty, string_eq.beq_iff (py.str_of_uuid u) "", ap_uuid u)
    where
      ap_uuid : (u : Uuid) → py.str_of_uuid u ≡ "" → py.uuid_of_text (py.str_of_uuid u) ≡ none
      ap_uuid u e = rw e py.uuid-empty

  -- An attempt is at least one, whatever the payload says.
  pub read_attempt_pos : (v : Value) → 1 ≤ read_attempt v
  unfolding read_attempt
  read_attempt_pos null = omega arith
  read_attempt_pos v = attempt_from_pos (to_int v)
