-- ===== src/Ledger/Once.antt =====
-- A tool's side effect happens at most once.
use aifluxon.Core.Message.{ToolInvocationId}
use aifluxon.Ledger.{ToolResult, ToolExecutionError, ToolLedger, execute_once, put}
use aifluxon.Prelude.Map.{lookup, lookup-insert}
use aifluxon.Prelude.{if◌then◌else◌, ◌==◌, Result, ◌≡◌, false, some, List, [], ◌∷◌, arith, ok, err}

abbrev pub Outcome : Type 0 → Type 0 → Type 0
Outcome E V = Result (ToolExecutionError E) (ToolResult V)

abbrev IsCached : {V : Type 0} → ToolInvocationId → ToolResult V → ToolLedger V → Type 0
IsCached id result l = (l.poisoned ≡ false) × (lookup id l.completed ≡ some result)

-- What any thread may do to a ledger: a call with the outcome that its executor would have, or a
-- result that is recorded from outside.
pub data Use (E V : Type 0) : Type 0 where
  calls : ToolInvocationId → Outcome E V → Use E V
  records : ToolInvocationId → ToolResult V → Use E V

IsCached-put :
    {V : Type 0} (l : ToolLedger V) (id other : ToolInvocationId) (made held : ToolResult V)
    → IsCached id held l
    → IsCached id (if other == id then made else held) (put other made l)
unfolding put
IsCached-put l id other made held c =
    (ground arith, ground (arith, lookup-insert other id made l.completed))

module _ {E V : Type 0} where
  unfoldable pub use_ledger : ToolLedger V → Use E V → ToolLedger V
  use_ledger l (calls id outcome) = (execute_once id outcome l).ledger
  use_ledger l (records id result) = put id result l

  unfoldable pub use_all : ToolLedger V → List (Use E V) → ToolLedger V
  unfolding use_ledger
  use_all l [] = l
  use_all l (u ∷ us) = use_all (use_ledger l u) us

  -- The result recorded last under the id, and the given one where none is.
  unfoldable pub recorded : ToolInvocationId → ToolResult V → List (Use E V) → ToolResult V
  recorded id held [] = held
  recorded id held (calls other outcome ∷ us) = recorded id held us
  recorded id held (records other result ∷ us) =
      recorded id (if other == id then result else held) us

  execute_once-cached :
      (l : ToolLedger V) (id : ToolInvocationId) (outcome : Outcome E V) (result : ToolResult V)
      → IsCached id result l
      → execute_once id outcome l ≡ record { answer = ok result; ledger = l; ran = false }
  unfolding execute_once
  execute_once-cached l id outcome result (live, held) = rw (live, held, execute_once)

  execute_once-answered :
      (l : ToolLedger V) (id : ToolInvocationId) (outcome : Outcome E V) (result : ToolResult V)
      → (execute_once id outcome l).answer ≡ ok result
      → IsCached id result (execute_once id outcome l).ledger
  unfolding execute_once
  execute_once-answered l id (ok made) result h =
      (ground arith, ground (arith, lookup-insert id id made l.completed))
  execute_once-answered l id (err e) result h = (ground arith, ground arith)

  IsCached-step :
      (l : ToolLedger V) (id other : ToolInvocationId) (outcome : Outcome E V)
      (result : ToolResult V)
      → IsCached id result l
      → IsCached id result (execute_once other outcome l).ledger
  unfolding execute_once
  IsCached-step l id other (ok made) result c =
      (ground arith, ground (arith, lookup-insert other id made l.completed))
  IsCached-step l id other (err e) result c = (ground arith, ground arith)

  IsCached-all :
      (l : ToolLedger V) (id : ToolInvocationId) (us : List (Use E V)) (held : ToolResult V)
      → IsCached id held l
      → IsCached id (recorded id held us) (use_all l us)
  unfolding use_all recorded
  IsCached-all l id [] held c = c
  IsCached-all l id (calls other outcome ∷ us) held c =
      IsCached-all (execute_once other outcome l).ledger id us held
        (IsCached-step l id other outcome held c)
  IsCached-all l id (records other made ∷ us) held c =
      IsCached-all (put other made l) id us (if other == id then made else held)
        (IsCached-put l id other made held c)

  -- After a call answered with a result, over any history of calls and of results recorded from
  -- outside, a later call with the same id does not run its executor, leaves the ledger as it is, and
  -- answers the result that was recorded last under the id, or else the first one.
  pub execute_at_most_once :
      (l : ToolLedger V) (id : ToolInvocationId) (first again : Outcome E V) (us : List (Use E V))
      (result : ToolResult V)
      → (execute_once id first l).answer ≡ ok result
      → execute_once id again (use_all (execute_once id first l).ledger us) ≡ record {
        answer = ok (recorded id result us);
        ledger = use_all (execute_once id first l).ledger us;
        ran = false;
      }
  execute_at_most_once l id first again us result h =
      execute_once-cached (use_all (execute_once id first l).ledger us) id again
        (recorded id result us)
        (IsCached-all (execute_once id first l).ledger id us result
          (execute_once-answered l id first result h))
