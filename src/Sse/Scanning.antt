-- ===== src/Sse/Scanning.antt =====
-- The search of the parser begins where the last one could have missed nothing.
use aifluxon.Sse.{
  is_char_boundary, text_from, text_between, take_event, rewound, next_event_boundary, drain,
  settle, SseEvent, IncrementalSseParser, char_boundary, drain_complete_events,
}
use aifluxon.Prelude.{
  take, subst, sym, true, Bool-cases, length-append, ℕ, zero, suc, ◌+◌, ◌≤◌, ◌≡◌, refl, ap, ◌∙◌,
  inl, inr, Option-cases, Option, none, some, List, [], ◌++◌, length, drop, arith, length-drop, ◌-◌,
  ◌<◌,
}
use aifluxon.Sse.Clean.{
  is_clean, clean_behind, clean_boundary, drop-drop, zero_boundary, drop-append,
}
use aifluxon.Sse.Search.{shifted, IsSafe, safe_skip, boundary-bound}
use aifluxon.Sse.Utf8.{Utf8ChunkDecoder}

-- An index is a boundary of a longer text where it is one before the end of the text.
boundary-extend :
    (s : ℕ) (old ext : List ℕ)
    → s < length old
    → is_char_boundary s old ≡ true
    → is_char_boundary s (old ++ ext) ≡ true
unfolding is_char_boundary
boundary-extend zero old ext le h = refl
boundary-extend (suc s) old ext le h =
    ground (arith, length-append old ext, drop-append (suc s) old ext le)

safe-extend :
    (s : ℕ) (old ext : List ℕ)
    → IsSafe s old
    → is_char_boundary s old ≡ true
    → is_char_boundary s (old ++ ext) ≡ true
safe-extend s old ext (inl e) h = rw e (zero_boundary (old ++ ext))
safe-extend s old ext (inr le) h = boundary-extend s old ext (omega arith) h

drain-at :
    (fuel s n : ℕ) (buffer : List ℕ)
    → is_char_boundary s buffer ≡ true
    → next_event_boundary (drop s buffer) ≡ some n
    → drain (suc fuel) buffer 0 s
      ≡ take_event (text_between 0 (s + n) buffer) (drain fuel buffer (s + n) (s + n))
unfolding drain text_from
drain-at fuel s n buffer here e = rw (here, e, drain) refl

drain-end :
    (fuel s : ℕ) (buffer : List ℕ)
    → is_char_boundary s buffer ≡ true
    → next_event_boundary (drop s buffer) ≡ none
    → drain (suc fuel) buffer 0 s ≡ some (0, [])
unfolding drain text_from
drain-end fuel s buffer here e = rw (here, e, drain) refl

drain-first :
    (fuel s : ℕ) (buffer : List ℕ)
    → is_char_boundary s buffer ≡ true
    → next_event_boundary buffer ≡ shifted s (next_event_boundary (drop s buffer))
    → drain (suc fuel) buffer 0 s ≡ drain (suc fuel) buffer 0 0
drain-first fuel s buffer here h = elim (Option-cases (next_event_boundary (drop s buffer))) [
  | inl e ↦
      drain-end fuel s buffer here e
      ∙ sym (drain-end fuel 0 buffer (zero_boundary buffer) (h ∙ ap (shifted s) e))
  | inr (n, e) ↦
      let same : 0 + (s + n) ≡ s + n = omega arith in
      let whole = drain-at fuel 0 (s + n) buffer (zero_boundary buffer) (h ∙ ap (shifted s) e) in
      drain-at fuel s n buffer here e
      ∙ sym (
          subst
            (λ k.
              drain (suc fuel) buffer 0 0
              ≡ take_event (text_between 0 k buffer) (drain fuel buffer k k))
            same whole)
]

-- What a loop that ended left: it consumed up to where the text may be sliced, and no boundary is
-- left behind that.
abbrev Left : List ℕ → Option (ℕ × List SseEvent) → Type 0
Left buffer none = ⊥
Left buffer (some (consumed, events)) =
    (is_char_boundary consumed buffer ≡ true)
    × (is_clean true (drop consumed buffer) ≡ true)
    × (next_event_boundary (drop consumed buffer) ≡ none)

Left-take_event :
    (buffer block : List ℕ) (o : Option (ℕ × List SseEvent))
    → Left buffer o
    → Left buffer (take_event (some block) o)
unfolding take_event
Left-take_event buffer block none h = h
Left-take_event buffer block (some (consumed, events)) h = h

between_boundaries :
    (m n : ℕ) (buffer : List ℕ)
    → m ≤ n
    → is_char_boundary m buffer ≡ true
    → is_char_boundary n buffer ≡ true
    → text_between m n buffer ≡ some (take (n - m) (drop m buffer))
unfolding text_between
between_boundaries m n buffer le h k = ground arith

drain-Left :
    (fuel : ℕ) (buffer : List ℕ) (at : ℕ)
    → at ≤ length buffer
    → is_clean true (drop at buffer) ≡ true
    → length (drop at buffer) < fuel
    → Left buffer (drain fuel buffer at at)
unfolding drain text_from
drain-Left zero buffer at within clean less = absurd (omega arith)
drain-Left (suc fuel) buffer at within clean less =
    let here = clean_boundary at buffer within clean in
    elim (Option-cases (next_event_boundary (drop at buffer))) [
      | inl e ↦ rw (here, e, drain) (here, clean, e)
      | inr (n, e) ↦
          let bound = boundary-bound (drop at buffer) n e in
          let counted = length-drop at buffer in
          let next_within : at + n ≤ length buffer = omega arith in
          let next_clean : is_clean true (drop (at + n) buffer) ≡ true =
            rw (← (drop-drop at n buffer)) (clean_behind (drop at buffer) true n clean e) in
          let there = clean_boundary (at + n) buffer next_within next_clean in
          rw (here, e, between_boundaries at (at + n) buffer (omega arith) here there, drain)
            (Left-take_event buffer (take (at + n - at) (drop at buffer))
              (drain fuel buffer (at + n) (at + n))
              (drain-Left fuel buffer (at + n) next_within next_clean
                (omega (arith, length-drop (at + n) buffer))))
    ]

char_boundary-le : (n : ℕ) (buffer : List ℕ) → char_boundary n buffer ≤ n
unfolding char_boundary
char_boundary-le zero buffer = omega arith
char_boundary-le (suc n) buffer = ground (arith, char_boundary-le n buffer)

char_boundary-is :
    (n : ℕ) (buffer : List ℕ) → is_char_boundary (char_boundary n buffer) buffer ≡ true
unfolding char_boundary
char_boundary-is zero buffer = zero_boundary buffer
char_boundary-is (suc n) buffer = elim (Bool-cases (is_char_boundary (suc n) buffer)) [
  | inl h ↦ rw (h, char_boundary) h
  | inr h ↦ rw (h, char_boundary) (char_boundary-is n buffer)
]

-- The parser has handed out every event that its buffer completes, searches on where nothing is
-- missed and where the text may be sliced, and its text is clean.
pub record IsReady (p : IncrementalSseParser) : Type 0 where
  pub nothing_left : next_event_boundary p.buffer ≡ none
  pub safe : IsSafe p.scanned p.buffer
  pub sliceable : is_char_boundary p.scanned p.buffer ≡ true
  pub clean : is_clean true p.buffer ≡ true

IsSafe-scanned : (n : ℕ) (buffer : List ℕ) → n ≤ length buffer - 3 → IsSafe n buffer
IsSafe-scanned zero buffer h = inl refl
IsSafe-scanned (suc n) buffer h = inr (omega arith)

-- The result of a call: events, and a parser that is ready for the next one.
abbrev pub Completes : Option (List SseEvent × IncrementalSseParser) → Type 0
Completes none = ⊥
Completes (some (events, p)) = IsReady p

settle-Completes :
    (utf8 : Utf8ChunkDecoder) (buffer : List ℕ) (o : Option (ℕ × List SseEvent))
    → Left buffer o
    → Completes (settle utf8 buffer o)
unfolding settle text_from rewound
settle-Completes utf8 buffer none h = h
settle-Completes utf8 buffer (some (consumed, events)) (here, clean, left) =
    rw (here, settle)
      (record {
        nothing_left = left;
        safe =
            IsSafe-scanned
              (char_boundary (length (drop consumed buffer) - 3) (drop consumed buffer))
              (drop consumed buffer)
              (char_boundary-le (length (drop consumed buffer) - 3) (drop consumed buffer));
        sliceable = char_boundary-is (length (drop consumed buffer) - 3) (drop consumed buffer);
        clean = clean;
      })

pub drain_complete-eq :
    (utf8 : Utf8ChunkDecoder) (p : IncrementalSseParser) (decoded : List ℕ)
    → IsReady p
    → drain_complete_events utf8 (p.buffer ++ decoded) p.scanned
      ≡ drain_complete_events utf8 (p.buffer ++ decoded) 0
unfolding drain_complete_events
drain_complete-eq utf8 p decoded h = ap (settle utf8 (p.buffer ++ decoded)) (
    drain-first (length (p.buffer ++ decoded)) p.scanned (p.buffer ++ decoded)
      (safe-extend p.scanned p.buffer decoded h.safe h.sliceable)
      (safe_skip p.scanned p.buffer decoded h.nothing_left h.safe))

pub drain_complete-Completes :
    (utf8 : Utf8ChunkDecoder) (buffer : List ℕ)
    → is_clean true buffer ≡ true
    → Completes (drain_complete_events utf8 buffer 0)
unfolding drain_complete_events
drain_complete-Completes utf8 buffer clean =
    settle-Completes utf8 buffer (drain (suc (length buffer)) buffer 0 0)
      (drain-Left (suc (length buffer)) buffer 0 (omega arith) clean (omega arith))
