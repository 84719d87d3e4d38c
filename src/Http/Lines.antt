-- ===== src/Http/Lines.antt =====
-- The parser of server-sent events inside `connect_sse`, src/http/client.rs.
use notifiapp_transport.Common.{
  ℕ, zero, suc, List, [], ◌∷◌, ◌++◌, Option, none, some, Text, codes, ◌==◌, if◌then◌else◌, is_nil,
  length, strip_prefix, trim,
}

-- `str::trim_end_matches` for one character.
unfoldable pub trim_end_matches : ℕ → Text → Text
trim_end_matches c [] = []
trim_end_matches c (x ∷ xs) = elim (trim_end_matches c xs) [
  | [] ↦ if x == c then [] else x ∷ []
  | y ∷ ys ↦ x ∷ y ∷ ys
]

-- `[String]::join`.
unfoldable pub join : Text → List Text → Text
join sep [] = []
join sep (x ∷ []) = x
join sep (x ∷ y ∷ ys) = x ++ (sep ++ join sep (y ∷ ys))

abbrev pub cons_line : ℕ → Option (Text × Text) → Option (Text × Text)
cons_line c none = none
cons_line c (some (line, rest)) = some (c ∷ line, rest)

-- The first line of a text with its newline, and what is behind it: `find('\n')` and `drain`.
unfoldable pub find_line : Text → Option (Text × Text)
find_line [] = none
find_line (c ∷ cs) =
    let rest = cons_line c (find_line cs) in if c == b'\n' then some (c ∷ [], cs) else rest

-- The variables of the parser, and the calls of the handler, oldest first.
pub record Parser : Type 0 where
  pub event_type : Text
  pub data_lines : List Text
  pub leftover : Text
  pub handled : List (Text × Text)

unfoldable pub message_type : Text
message_type = codes "message"

unfoldable pub initial : Parser
initial = record { event_type = message_type; data_lines = []; leftover = []; handled = [] }

-- An empty line hands the event out, if it has data.
unfoldable pub hand_out : Parser → Parser
hand_out p = if is_nil p.data_lines then p else record p {
  handled = p.handled ++ ((p.event_type, join (codes "\n") p.data_lines) ∷ []);
  data_lines = [];
  event_type = message_type;
}

-- A line that is not empty: `event:`, `data:`, and all others are ignored.
unfoldable pub read_field : Text → Parser → Parser
read_field line p = elim (strip_prefix (codes "event:") line) [
  | some value ↦ record p { event_type = trim value }
  | none ↦ elim (strip_prefix (codes "data:") line) [
    | some value ↦ record p { data_lines = p.data_lines ++ (trim value ∷ []) }
    | none ↦ p
  ]
]

unfoldable pub read_line : Text → Parser → Parser
read_line drained p =
    let line = trim_end_matches b'\r' (trim_end_matches b'\n' drained) in
    if is_nil line then hand_out p else read_field line p

-- `while let Some(newline_pos) = leftover.find('\n')`, with fuel.
unfoldable pub drain : ℕ → Parser → Parser
drain zero p = p
drain (suc fuel) p = elim (find_line p.leftover) [
  | none ↦ p
  | some (line, rest) ↦ drain fuel (read_line line (record p { leftover = rest }))
]

-- A chunk of the stream, decoded. Each round takes a line off `leftover`.
unfoldable pub on_chunk : Text → Parser → Parser
on_chunk text p =
    let p' = record p { leftover = p.leftover ++ text } in drain (length p'.leftover) p'

unfoldable pub on_chunks : List Text → Parser → Parser
on_chunks [] p = p
on_chunks (t ∷ ts) p = on_chunks ts (on_chunk t p)
