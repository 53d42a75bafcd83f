-- ===== src/Examples/ServerEvents.antt =====
-- A stream of server-sent events in two chunks, cut inside the boundary and inside a character.
use aifluxon.Sse.{IncrementalSseParser, push, lf, next_event_boundary, is_char_boundary}
use aifluxon.Sse.Clean.{is_clean}
use aifluxon.Sse.Utf8.{is_continuation}
use aifluxon.Sse.Pushing.{push_searches_all}
use aifluxon.Sse.Scanning.{IsReady, Completes}
use aifluxon.Prelude.{ℕ, List, [], ◌∷◌, none, some, inr, refl, ◌≡◌, arith}

-- The parser after "data:é" and a line feed.
abbrev half_way : IncrementalSseParser
half_way = record {
  utf8 = record { pending = [] };
  buffer = b'd' ∷ b'a' ∷ b't' ∷ b'a' ∷ b':' ∷ 195 ∷ 169 ∷ lf ∷ [];
  scanned = 5;
}

-- A line feed, "id:1", two line feeds, and half of a character.
abbrev chunk : List ℕ
chunk = lf ∷ b'i' ∷ b'd' ∷ b':' ∷ b'1' ∷ lf ∷ lf ∷ 195 ∷ []

half_way-IsReady : IsReady half_way
unfolding next_event_boundary is_char_boundary is_clean is_continuation
half_way-IsReady = record {
  nothing_left = refl;
  safe = inr (omega arith);
  sliceable = refl;
  clean = refl;
}

push_searches_all_example :
    (push chunk half_way ≡ push chunk (record half_way { scanned = 0 }))
    × Completes (push chunk half_way)
push_searches_all_example = push_searches_all chunk half_way half_way-IsReady

pushed :
    push chunk half_way
    ≡ some (
      record { event = none; text = 195 ∷ 169 ∷ []; id = none; retry = none }
          ∷ record { event = none; text = []; id = some (b'1' ∷ []); retry = none }
          ∷ [],
      record { utf8 = record { pending = 195 ∷ [] }; buffer = []; scanned = 0 },
    )
unfolding push
pushed = refl
