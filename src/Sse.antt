-- ===== src/Sse.antt =====
-- crates/aifluxon-providers/src/common/sse.rs: server-sent events out of chunks of bytes. Text is its
-- UTF-8 bytes. The loop of `drain_complete_events` runs on fuel, the length of the buffer and 1 more:
-- each round moves on by a boundary, which has a byte.
pub mod Utf8
pub mod Clean
pub mod Decoded
pub mod Search
pub mod Scanning
pub mod Pushing
use aifluxon.Sse.Utf8.{Utf8ChunkDecoder, decode_chunk, finish_decoding, is_continuation}
use aifluxon.Prelude.{
  take, ℕ, zero, suc, ◌+◌, ◌-◌, leb, ltb, ◌==◌, if◌then◌else◌, Bool, true, false, not, ◌&&◌, ◌||◌,
  Option, none, some, List, [], ◌∷◌, ◌++◌, length, drop,
}

pub record SseEvent : Type 0 where
  pub event : Option (List ℕ)
  pub text : List ℕ
  pub id : Option (List ℕ)
  pub retry : Option (List ℕ)

pub record IncrementalSseParser : Type 0 where
  pub utf8 : Utf8ChunkDecoder
  pub buffer : List ℕ
  pub scanned : ℕ

-- A line feed and a carriage return.
abbrev pub lf : ℕ
lf = 10

abbrev pub cr : ℕ
cr = 13

unfoldable pub same_bytes : List ℕ → List ℕ → Bool
same_bytes [] [] = true
same_bytes [] (y ∷ ys) = false
same_bytes (x ∷ xs) [] = false
same_bytes (x ∷ xs) (y ∷ ys) = let rest = same_bytes xs ys in x == y && rest

-- The length of the boundary at the start of the bytes, if there is one.
abbrev pub boundary_here : List ℕ → Option ℕ
boundary_here [] = none
boundary_here (a ∷ []) = none
boundary_here (a ∷ b ∷ []) = if a == lf && b == lf then some 2 else none
boundary_here (a ∷ b ∷ c ∷ []) = if a == lf && b == lf then some 2 else none
boundary_here (a ∷ b ∷ c ∷ d ∷ more) =
    if a == lf && b == lf
    then some 2
    else if a == cr && (b == lf && (c == cr && d == lf))
    then some 4
    else none

abbrev pub further : Option ℕ → Option ℕ
further none = none
further (some n) = some (suc n)

-- The index behind the first boundary.
unfoldable pub next_event_boundary : List ℕ → Option ℕ
next_event_boundary [] = none
next_event_boundary (b ∷ bs) =
    let rest = next_event_boundary bs in
    elim (boundary_here (b ∷ bs)) [ some n ↦ some n | none ↦ further rest ]

-- split('\n').
unfoldable pub split_lines : List ℕ → List (List ℕ)
split_lines [] = [] ∷ []
split_lines (b ∷ bs) =
    let rest = split_lines bs in
    if b == lf then [] ∷ rest else (elim rest [ [] ↦ (b ∷ []) ∷ [] | l ∷ ls ↦ (b ∷ l) ∷ ls ])

-- strip_suffix('\r').
unfoldable pub strip_cr : List ℕ → List ℕ
strip_cr [] = []
strip_cr (b ∷ []) = if b == cr then [] else b ∷ []
strip_cr (b ∷ c ∷ bs) = b ∷ strip_cr (c ∷ bs)

abbrev pub strip_space : List ℕ → List ℕ
strip_space [] = []
strip_space (b ∷ bs) = if b == b' ' then bs else b ∷ bs

-- split_once(':'), the whole line being the field where there is no colon.
unfoldable pub split_field : List ℕ → List ℕ × List ℕ
split_field [] = ([], [])
split_field (b ∷ bs) =
    let rest = split_field bs in if b == b':' then ([], strip_space bs) else (b ∷ rest.0, rest.1)

-- trim_start_matches('\u{feff}').
unfoldable pub trim_bom : List ℕ → List ℕ
trim_bom (a ∷ b ∷ c ∷ bs) =
    let rest = trim_bom bs in if a == 239 && (b == 187 && c == 191) then rest else a ∷ b ∷ c ∷ bs
trim_bom bs = bs

abbrev pub is_ignored : List ℕ → Bool
is_ignored [] = true
is_ignored (b ∷ bs) = b == b':'

-- The match on the name of a field.
unfoldable pub with_field : List ℕ → List ℕ → SseEvent → SseEvent
unfolding same_bytes
with_field field value e =
    if same_bytes field (b'd' ∷ b'a' ∷ b't' ∷ b'a' ∷ [])
    then record e { text = (if length e.text == 0 then [] else e.text ++ lf ∷ []) ++ value }
    else if same_bytes field (b'e' ∷ b'v' ∷ b'e' ∷ b'n' ∷ b't' ∷ [])
    then record e { event = some value }
    else if same_bytes field (b'i' ∷ b'd' ∷ [])
    then record e { id = some value }
    else if same_bytes field (b'r' ∷ b'e' ∷ b't' ∷ b'r' ∷ b'y' ∷ [])
    then record e { retry = some value }
    else e

-- The loop over the lines, with saw_field.
unfoldable pub parse_lines : List (List ℕ) → Bool → SseEvent → Option SseEvent
unfolding strip_cr split_field with_field
parse_lines [] saw e = if saw then some e else none
parse_lines (raw ∷ lines) saw e =
    let skipped = parse_lines lines saw e in
    let taken =
      parse_lines lines true
        (with_field (split_field (strip_cr raw)).0 (split_field (strip_cr raw)).1 e) in
    if is_ignored (strip_cr raw) then skipped else taken

abbrev pub no_event : SseEvent
no_event = record { event = none; text = []; id = none; retry = none }

unfoldable pub parse_event_block : List ℕ → Option SseEvent
unfolding trim_bom split_lines parse_lines
parse_event_block block = parse_lines (split_lines (trim_bom block)) false no_event

abbrev pub with_event : Option SseEvent → List SseEvent → List SseEvent
with_event none events = events
with_event (some e) events = e ∷ events

-- What is consumed, and the events. `none` is a loop out of fuel.
abbrev pub add_event : Option SseEvent → Option (ℕ × List SseEvent) → Option (ℕ × List SseEvent)
add_event e none = none
add_event e (some (consumed, events)) = some (consumed, with_event e events)

abbrev pub begins_char : List ℕ → Bool
begins_char [] = true
begins_char (b ∷ bs) = not (is_continuation b)

unfoldable pub is_char_boundary : ℕ → List ℕ → Bool
unfolding is_continuation
is_char_boundary zero buffer = true
is_char_boundary (suc n) buffer =
    if ltb (length buffer) (suc n) then false else begins_char (drop (suc n) buffer)

-- &buffer[n..], which panics off a char boundary.
unfoldable pub text_from : ℕ → List ℕ → Option (List ℕ)
unfolding is_char_boundary
text_from n buffer = if is_char_boundary n buffer then some (drop n buffer) else none

-- &buffer[m..n].
unfoldable pub text_between : ℕ → ℕ → List ℕ → Option (List ℕ)
unfolding is_char_boundary
text_between m n buffer =
    if leb m n && (is_char_boundary m buffer && is_char_boundary n buffer)
    then some (take (n - m) (drop m buffer))
    else none

-- The body of the loop on the event that ends at an index, before the rest of the loop.
unfoldable pub take_event :
    Option (List ℕ) → Option (ℕ × List SseEvent) → Option (ℕ × List SseEvent)
unfolding parse_event_block
take_event none rest = none
take_event (some block) rest = add_event (parse_event_block block) rest

-- `none` is a panic as well.
unfoldable pub drain : ℕ → List ℕ → ℕ → ℕ → Option (ℕ × List SseEvent)
unfolding next_event_boundary text_from text_between take_event
drain zero buffer consumed search = none
drain (suc fuel) buffer consumed search = elim (text_from search buffer) [
  | none ↦ none
  | some rest ↦ elim (next_event_boundary rest) [
    | none ↦ some (consumed, [])
    | some n ↦
        take_event (text_between consumed (search + n) buffer)
          (drain fuel buffer (search + n) (search + n))
  ]
]

-- while !is_char_boundary(scanned) { scanned -= 1 }.
unfoldable pub char_boundary : ℕ → List ℕ → ℕ
unfolding is_char_boundary
char_boundary zero buffer = 0
char_boundary (suc n) buffer =
    let rest = char_boundary n buffer in if is_char_boundary (suc n) buffer then suc n else rest

-- The parser with the buffer behind what was consumed.
unfoldable pub rewound :
    Utf8ChunkDecoder
    → List SseEvent
    → Option (List ℕ)
    → Option (List SseEvent × IncrementalSseParser)
unfolding char_boundary
rewound utf8 events none = none
rewound utf8 events (some buffer) = some (
  events,
  record { utf8 = utf8; buffer = buffer; scanned = char_boundary (length buffer - 3) buffer },
)

-- The part of `drain_complete_events` behind the loop.
unfoldable pub settle :
    Utf8ChunkDecoder
    → List ℕ
    → Option (ℕ × List SseEvent)
    → Option (List SseEvent × IncrementalSseParser)
unfolding rewound text_from
settle utf8 buffer none = none
settle utf8 buffer (some (consumed, events)) = rewound utf8 events (text_from consumed buffer)

unfoldable pub drain_complete_events :
    Utf8ChunkDecoder → List ℕ → ℕ → Option (List SseEvent × IncrementalSseParser)
unfolding drain settle
drain_complete_events utf8 buffer scanned =
    settle utf8 buffer (drain (suc (length buffer)) buffer 0 scanned)

unfoldable pub push : List ℕ → IncrementalSseParser → Option (List SseEvent × IncrementalSseParser)
unfolding decode_chunk drain_complete_events
push chunk p = elim (decode_chunk chunk p.utf8) [
  | none ↦ none
  | some (decoded, utf8) ↦ drain_complete_events utf8 (p.buffer ++ decoded) p.scanned
]

unfoldable pub last_event :
    Option (List SseEvent × IncrementalSseParser) → Option (List SseEvent × IncrementalSseParser)
unfolding parse_event_block
last_event none = none
last_event (some (events, p)) =
    some
      (events ++ with_event (parse_event_block p.buffer) [], record p { buffer = []; scanned = 0 })

unfoldable pub finish : IncrementalSseParser → Option (List SseEvent × IncrementalSseParser)
unfolding finish_decoding drain_complete_events last_event
finish p = elim (finish_decoding p.utf8) [
  | none ↦ none
  | some (decoded, utf8) ↦ last_event (drain_complete_events utf8 (p.buffer ++ decoded) p.scanned)
]
