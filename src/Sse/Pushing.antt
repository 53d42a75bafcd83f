-- ===== src/Sse/Pushing.antt =====
-- A push of the parser ends, and its search from `scanned` finds what a search of the whole buffer does.
use aifluxon.Sse.Clean.{is_clean, clean-append}
use aifluxon.Sse.Decoded.{Accepted, from_utf8-Accepted}
use aifluxon.Sse.Utf8.{
  is_continuation, Validity, valid, invalid, scan, sequence_length, continues, Utf8ChunkDecoder,
  from_utf8, replacement, decode, held, decode_chunk,
}
use aifluxon.Prelude.{
  true, take, ℕ, ◌+◌, ◌==◌, ◌≤◌, subst, none, some, List, [], ◌∷◌, length, Bool-cases, inl, inr,
  arith, drop, length-drop, zero, suc, ◌<◌, ◌≡◌, refl, sym, ap, ◌++◌,
}
use aifluxon.Sse.{push, IncrementalSseParser}
use aifluxon.Sse.Scanning.{IsReady, Completes, drain_complete-eq, drain_complete-Completes}

-- Where an error is, and how long: within the bytes, and at least one byte.
abbrev Within : ℕ → Validity → Type 0
Within top valid = Unit
Within top (invalid n none) = Unit
Within top (invalid n (some k)) = (1 ≤ k) × (n + k ≤ top)

scan-Within :
    (index lead seen : ℕ) (bs : List ℕ)
    → Within (index + seen + length bs) (scan index lead seen bs)
unfolding scan
scan-Within index lead seen [] = elim (Bool-cases (seen == 0)) [
  | inl e ↦ rw (e, scan) tt
  | inr e ↦ rw (e, scan) tt
]
scan-Within index lead seen (b ∷ bs) = elim (Bool-cases (seen == 0)) [
  | inl e ↦ elim (Bool-cases (sequence_length b == 0)) [
    | inl f ↦ rw (e, f, scan) (omega arith, ground arith)
    | inr f ↦ elim (Bool-cases (sequence_length b == 1)) [
      | inl g ↦
          rw (e, f, g, scan)
            (subst (λ top. Within top (scan (index + 1) 0 0 bs)) (ground arith)
              (scan-Within (index + 1) 0 0 bs))
      | inr g ↦
          rw (e, f, g, scan)
            (subst (λ top. Within top (scan index b 1 bs)) (ground arith)
              (scan-Within index b 1 bs))
    ]
  ]
  | inr e ↦ elim (Bool-cases (continues lead seen b)) [
    | inr f ↦ rw (e, f, scan) (ground arith, omega arith)
    | inl f ↦ elim (Bool-cases (seen + 1 == sequence_length lead)) [
      | inl g ↦
          rw (e, f, g, scan)
            (subst (λ top. Within top (scan (index + seen + 1) 0 0 bs)) (omega arith)
              (scan-Within (index + seen + 1) 0 0 bs))
      | inr g ↦
          rw (e, f, g, scan)
            (subst (λ top. Within top (scan index lead (seen + 1) bs)) (omega arith)
              (scan-Within index lead (seen + 1) bs))
    ]
  ]
]

data Report (v : Validity) : Type 0 where
  whole : v ≡ valid → Report v
  unfinished : (n : ℕ) → v ≡ invalid n none → Report v
  broken : (n k : ℕ) → v ≡ invalid n (some k) → Report v

report : (v : Validity) → Report v
report valid = whole refl
report (invalid n none) = unfinished n refl
report (invalid n (some k)) = broken n k refl

within :
    (n k top : ℕ) (v : Validity)
    → v ≡ invalid n (some k)
    → Within (0 + 0 + top) v
    → (1 ≤ k) × (n + k ≤ top)
within n k top v e h =
    let (some_byte, inside) = subst (Within (0 + 0 + top)) e h in (some_byte, omega arith)

in_bytes :
    (n k : ℕ) (bytes : List ℕ)
    → from_utf8 bytes ≡ invalid n (some k)
    → (1 ≤ k) × (n + k ≤ length bytes)
unfolding from_utf8
in_bytes n k bytes e = within n k (length bytes) _ e (scan-Within 0 0 0 bytes)

accepted : (pending : List ℕ) (v : Validity) → from_utf8 pending ≡ v → Accepted pending v
accepted pending v e = subst (Accepted pending) e (from_utf8-Accepted pending)

replacement-clean : is_clean true replacement ≡ true
unfolding is_clean is_continuation
replacement-clean = refl

decode_total :
    (fuel : ℕ) (pending decoded : List ℕ)
    → length pending < fuel
    → is_clean true decoded ≡ true
    → (r : List ℕ × List ℕ) × (decode fuel pending decoded ≡ some r) × (is_clean true r.0 ≡ true)
unfolding decode
decode_total zero pending decoded less clean = absurd (omega arith)
decode_total (suc fuel) pending decoded less clean = elim (report (from_utf8 pending)) [
  | whole e ↦ (
    (decoded ++ pending, []),
    rw (e, decode),
    clean-append true decoded pending clean (accepted pending valid e),
  )
  | unfinished n e ↦ (
    (decoded ++ take n pending, drop n pending),
    rw (e, decode),
    clean-append true decoded (take n pending) clean (accepted pending (invalid n none) e),
  )
  | broken n k e ↦
      let bound : (1 ≤ k) × (n + k ≤ length pending) = in_bytes n k pending e in
      let (r, rest, c) =
        decode_total fuel (drop k (drop n pending)) ((decoded ++ take n pending) ++ replacement)
          (omega (arith, length-drop n pending, length-drop k (drop n pending)))
          (clean-append true (decoded ++ take n pending) replacement
            (clean-append true decoded (take n pending) clean
              (accepted pending (invalid n (some k)) e))
            replacement-clean) in
      (r, rw (e, decode) rest, c)
]

-- The loop of the decoder ends within its fuel, and hands out clean text.
decode_chunk_total :
    (chunk : List ℕ) (d : Utf8ChunkDecoder)
    → (decoded : List ℕ) × (d' : Utf8ChunkDecoder) × (decode_chunk chunk d ≡ some (decoded, d'))
      × (is_clean true decoded ≡ true)
unfolding decode_chunk is_clean
decode_chunk_total chunk d =
    let (r, e, c) =
      decode_total (suc (length (d.pending ++ chunk))) (d.pending ++ chunk) [] (omega arith) refl in
    (r.0, record { pending = r.1 }, ap held e, c)

-- A push to a parser that is ready always ends and never slices inside a character, answers what it
-- would answer if it searched its whole buffer, and leaves the parser ready: no boundary is left in
-- the buffer, and the next search begins between two characters, where it misses nothing.
pub push_searches_all :
    (chunk : List ℕ) (p : IncrementalSseParser)
    → IsReady p
    → (push chunk p ≡ push chunk (record p { scanned = 0 })) × Completes (push chunk p)
unfolding push
push_searches_all chunk p h =
    let (decoded, utf8, e, clean) = decode_chunk_total chunk p.utf8 in
    let same = drain_complete-eq utf8 p decoded h in
    (
      rw (e, push) same,
      rw (e, push)
          (subst Completes (sym same) (
            drain_complete-Completes utf8 (p.buffer ++ decoded)
              (clean-append true p.buffer decoded h.clean clean))),
    )
