-- ===== src/Sse/Utf8.antt =====
-- crates/aifluxon-providers/src/common/utf8.rs, with what str::from_utf8 reports. The loop of `push`
-- runs on fuel, the number of pending bytes and 1 more: each round drops a byte.
use aifluxon.Prelude.{
  take, ℕ, zero, suc, ◌+◌, leb, ltb, ◌==◌, if◌then◌else◌, Bool, not, ◌&&◌, Option, none, some, List,
  [], ◌∷◌, ◌++◌, length, drop,
}

pub record Utf8ChunkDecoder : Type 0 where
  pub pending : List ℕ

-- A byte of the form 10xxxxxx.
unfoldable pub is_continuation : ℕ → Bool
is_continuation b = leb 128 b && ltb b 192

-- The length of the sequence that a byte begins, and 0 for a byte that begins none.
unfoldable pub sequence_length : ℕ → ℕ
sequence_length b =
    if ltb b 128
    then 1
    else if ltb b 194
    then 0
    else if ltb b 224
    then 2
    else if ltb b 240
    then 3
    else if ltb b 245
    then 4
    else 0

-- The range of a second byte, which keeps overlong forms, surrogates and large values out.
unfoldable pub is_second : ℕ → ℕ → Bool
is_second lead b =
    leb (if lead == 224 then 160 else if lead == 240 then 144 else 128) b
    && leb b (if lead == 237 then 159 else if lead == 244 then 143 else 191)

-- What str::from_utf8 says of the bytes: valid, or valid up to an index, with the length of the error
-- where it is not just an unfinished end.
pub data Validity : Type 0 where
  valid : Validity
  invalid : ℕ → Option ℕ → Validity

-- Whether a byte goes on with a sequence: its first byte, and how many bytes were seen.
unfoldable pub continues : ℕ → ℕ → ℕ → Bool
unfolding is_second is_continuation
continues lead seen b = if seen == 1 then is_second lead b else is_continuation b

-- `index` is where the sequence began that `lead` began, and `seen` counts its bytes so far, 0 between
-- sequences.
unfoldable pub scan : ℕ → ℕ → ℕ → List ℕ → Validity
unfolding sequence_length continues
scan index lead seen [] = if seen == 0 then valid else invalid index none
scan index lead seen (b ∷ bs) =
    let single = scan (index + 1) 0 0 bs in
    let begun = scan index b 1 bs in
    let complete = scan (index + seen + 1) 0 0 bs in
    let longer = scan index lead (seen + 1) bs in
    if seen == 0
    then if sequence_length b == 0
      then invalid index (some 1)
      else if sequence_length b == 1
      then single
      else begun
    else if not (continues lead seen b)
    then invalid index (some seen)
    else if seen + 1 == sequence_length lead
    then complete
    else longer

unfoldable pub from_utf8 : List ℕ → Validity
unfolding scan
from_utf8 bytes = scan 0 0 0 bytes

-- U+FFFD.
abbrev pub replacement : List ℕ
replacement = 239 ∷ 191 ∷ 189 ∷ []

-- The decoded bytes and what stays pending. `none` is a loop out of fuel.
unfoldable pub decode : ℕ → List ℕ → List ℕ → Option (List ℕ × List ℕ)
unfolding from_utf8
decode zero pending decoded = none
decode (suc fuel) pending decoded = elim (from_utf8 pending) [
  | valid ↦ some (decoded ++ pending, [])
  | invalid n none ↦ some (decoded ++ take n pending, drop n pending)
  | invalid n (some k) ↦
      decode fuel (drop k (drop n pending)) ((decoded ++ take n pending) ++ replacement)
]

abbrev pub held : Option (List ℕ × List ℕ) → Option (List ℕ × Utf8ChunkDecoder)
held none = none
held (some (decoded, pending)) = some (decoded, record { pending = pending })

-- Utf8ChunkDecoder::push.
unfoldable pub decode_chunk : List ℕ → Utf8ChunkDecoder → Option (List ℕ × Utf8ChunkDecoder)
unfolding decode
decode_chunk chunk d = held (decode (suc (length (d.pending ++ chunk))) (d.pending ++ chunk) [])

-- An unfinished sequence at the end gives one replacement.
abbrev pub closed : Option (List ℕ × Utf8ChunkDecoder) → Option (List ℕ × Utf8ChunkDecoder)
closed none = none
closed (some (decoded, d)) =
    some
      (if length d.pending == 0 then decoded else decoded ++ replacement, record { pending = [] })

-- Utf8ChunkDecoder::finish.
unfoldable pub finish_decoding : Utf8ChunkDecoder → Option (List ℕ × Utf8ChunkDecoder)
unfolding decode_chunk
finish_decoding d = closed (decode_chunk [] d)
