-- ===== src/Examples/ToolCalls.antt =====
-- Two tool calls whose deltas are interleaved, as in the source's own test of the assembler.
use text.Mathlib.Text.{◌==◌}
use aifluxon.Json.{Json}
use aifluxon.ToolDeltas.{ToolCallAssembler, new, apply_chat_delta, index_at, validate, finish}
use aifluxon.ToolDeltas.Assembly.{HasIndex, call_at, streamed, joined, arguments_in_order}
use aifluxon.Prelude.Strings.{is_whitespace}
use aifluxon.Prelude.{
  ℕ, true, false, Option, none, some, List, [], ◌∷◌, String, ◌<>◌, ◌≡◌, refl, All, ok,
  if◌then◌else◌,
}

-- A JSON value: an object is its fields, one after the other.
data Value : Type 0 where
  blank : Value
  word : String → Value
  number : ℕ → Value
  field : String → Value → Value → Value

abbrev member : String → Value → Option Value
member name (field key value more) =
    let rest = member name more in if key == name then some value else rest
member name _ = none

abbrev values : Json Value
values = record {
  null = blank;
  bool = λ b. blank;
  string = word;
  object = λ members. blank;
  insert = field;
  is_null = λ v. elim v [ blank ↦ true | _ ↦ false ];
  is_object = λ v. true;
  get = member;
  as_str = λ v. elim v [ word s ↦ some s | _ ↦ none ];
  as_u64 = λ v. elim v [ number n ↦ some n | _ ↦ none ];
  array_length = λ v. none;
  to_text = λ v. "";
  to_string = λ v. ok "";
  from_str = λ s. some (word s);
}

abbrev first_wins : Value → Value → Value
first_wins a b = a

-- A delta with the index, the id, and the function's name and arguments.
abbrev piece : ℕ → String → String → String → Value
piece index id name arguments = field "index" (number index) (
    field "id" (word id) (
      field "function" (field "name" (word name) (field "arguments" (word arguments) blank)) blank))

abbrev deltas : List (Value × ℕ)
deltas =
    (piece 0 "call_" "she" "", 0)
    ∷ (piece 1 "call_b" "read_file" "", 1)
    ∷ (piece 0 "a" "ll" "{\"com", 0)
    ∷ (piece 1 "" "" "{\"path\":1}", 1)
    ∷ (piece 0 "" "" "mand\":2}", 0)
    ∷ []

deltas-HasIndex : All (λ p. HasIndex values first_wins p.0) deltas
unfolding index_at
deltas-HasIndex = ((0, refl), ((1, refl), ((0, refl), ((1, refl), ((0, refl), tt)))))

arguments_in_order_example :
    (call_at 0 (streamed values first_wins deltas new).calls).arguments
    ≡ (call_at 0 (ToolCallAssembler.calls {V = Value} new)).arguments
      <> joined values first_wins 0 deltas
arguments_in_order_example = arguments_in_order values first_wins deltas new 0 deltas-HasIndex

put_together :
    finish values (λ key. 7) (streamed values first_wins deltas new)
    ≡ record {
      id = 7;
      name = "shell";
      arguments = word "{\"command\":2}";
      provider_call_id = some "call_a";
    }
      ∷ record {
        id = 7;
        name = "read_file";
        arguments = word "{\"path\":1}";
        provider_call_id = some "call_b";
      }
      ∷ []
unfolding finish apply_chat_delta is_whitespace
put_together = refl

accepted : validate values (streamed values first_wins deltas new) ≡ ok tt
unfolding validate apply_chat_delta is_whitespace
accepted = refl
