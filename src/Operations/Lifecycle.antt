-- ===== src/Operations/Lifecycle.antt =====
-- The life of one operation: which states follow which, and what a record keeps.
use Prim.Native.String.{String}
use aifluxon.Prelude.{
  ℕ, ◌≡◌, refl, Bool, true, false, not, ◌&&◌, Option, none, some, arith, Result, ok, err,
}
use aifluxon.Core.Message.{RunId}
use aifluxon.Core.Operation.{
  OperationMode, OperationState, OperationDecision, blocking_approval, deferred_commit, pending,
  approved, rejected, committing, committed, cancelled, expired, failed, approve, reject,
  is_terminal, is_pending, is_approved, is_committing, is_blocking, is_approve,
}
use aifluxon.Operations.{OperationRecord, decision_state, result_state, cancellable, expirable}

-- The arrows of the life cycle. Only a blocking approval is approved, and only a deferred commit
-- is committing.
abbrev pub next : OperationMode → OperationState → OperationState → Bool
next blocking_approval pending approved = true
next blocking_approval approved committed = true
next blocking_approval approved (failed _) = true
next blocking_approval approved cancelled = true
next deferred_commit pending committing = true
next deferred_commit committing committed = true
next deferred_commit committing (failed _) = true
next m pending rejected = true
next m pending cancelled = true
next m pending expired = true
next _ _ _ = false

-- A host still has to decide, or to report the effect of an approval.
abbrev pub is_active : OperationState → Bool
is_active pending = true
is_active approved = true
is_active _ = false

module _ {V : Type 0} where
  -- The state, the mode and the decision of a record agree.
  abbrev pub IsCoherent : OperationMode → OperationState → Option (OperationDecision V) → Type 0
  IsCoherent m pending d = d ≡ none
  IsCoherent m approved d = (m ≡ blocking_approval) × ((v : Option V) × (d ≡ some (approve v)))
  IsCoherent m rejected d = (why : Option String) × (d ≡ some (reject why))
  IsCoherent m committing d = (m ≡ deferred_commit) × (d ≡ none)
  IsCoherent m _ d = Unit

  abbrev pub Coherent : OperationRecord V → Type 0
  Coherent r = IsCoherent r.operation.mode r.state r.decision

  -- One arrow of a record, with the operation and its Notify kept.
  pub record Arrow (r r' : OperationRecord V) : Type 0 where
    pub operation : r'.operation ≡ r.operation
    pub notify : r'.notify ≡ r.notify
    pub arrow : next r.operation.mode r.state r'.state ≡ true
    pub coherent : Coherent r'

  pub resolve-Arrow :
      (r : OperationRecord V) (d : OperationDecision V)
      → is_pending r.state ≡ true
      → (not (is_blocking r.operation.mode) && is_approve d) ≡ false
      → Arrow r (record r { state = decision_state d; decision = some d })
  unfolding decision_state is_pending is_blocking is_approve
  resolve-Arrow r (approve v) p q = record {
    operation = refl;
    notify = refl;
    arrow = ground arith;
    coherent = (ground arith, (v, refl));
  }
  resolve-Arrow r (reject why) p q = record {
    operation = refl;
    notify = refl;
    arrow = ground arith;
    coherent = (why, refl);
  }

  pub begin_commit-Arrow :
      (r : OperationRecord V)
      → is_pending r.state ≡ true
      → is_blocking r.operation.mode ≡ false
      → Coherent r
      → Arrow r (record r { state = committing })
  unfolding is_pending is_blocking
  begin_commit-Arrow r p q c = record {
    operation = refl;
    notify = refl;
    arrow = ground arith;
    coherent = (ground arith, ground arith);
  }

  pub approval-Arrow :
      (r : OperationRecord V) (result : Result String (Unit {0}))
      → is_approved r.state ≡ true
      → is_blocking r.operation.mode ≡ true
      → Arrow r (record r { state = result_state result })
  unfolding result_state is_approved is_blocking
  approval-Arrow r (ok _) p q = record {
    operation = refl;
    notify = refl;
    arrow = ground arith;
    coherent = tt;
  }
  approval-Arrow r (err _) p q = record {
    operation = refl;
    notify = refl;
    arrow = ground arith;
    coherent = tt;
  }

  pub commit-Arrow :
      (r : OperationRecord V) (result : Result String (Unit {0}))
      → is_committing r.state ≡ true
      → Coherent r
      → Arrow r (record r { state = result_state result })
  unfolding result_state is_committing
  commit-Arrow r (ok _) p c = record {
    operation = refl;
    notify = refl;
    arrow = ground arith;
    coherent = tt;
  }
  commit-Arrow r (err _) p c = record {
    operation = refl;
    notify = refl;
    arrow = ground arith;
    coherent = tt;
  }

  pub cancel-Arrow :
      (run_id : RunId) (r : OperationRecord V)
      → cancellable run_id r ≡ true
      → Coherent r
      → Arrow r (record r { state = cancelled })
  unfolding cancellable
  cancel-Arrow run_id r p c = record {
    operation = refl;
    notify = refl;
    arrow = ground arith;
    coherent = tt;
  }

  pub expire-Arrow :
      (now : ℕ) (r : OperationRecord V)
      → expirable now r ≡ true
      → Arrow r (record r { state = expired })
  unfolding expirable
  expire-Arrow now r p = record {
    operation = refl;
    notify = refl;
    arrow = ground arith;
    coherent = tt;
  }

-- A terminal state has no arrow out of it.
pub terminal-stuck :
    (m : OperationMode) (a b : OperationState) → is_terminal a ≡ true → next m a b ≡ false
unfolding is_terminal
terminal-stuck m a b h = ground arith

-- No arrow leads back to pending.
pub never_pending :
    (m : OperationMode) (a b : OperationState) → next m a b ≡ true → is_pending b ≡ false
unfolding is_pending
never_pending m a b h = ground arith

pub result_settled : (result : Result String (Unit {0})) → is_active (result_state result) ≡ false
unfolding result_state
result_settled result = ground arith

pub approved_unpending : (a : OperationState) → is_approved a ≡ true → is_pending a ≡ false
unfolding is_approved is_pending
approved_unpending a h = ground arith

pub committing_unpending : (a : OperationState) → is_committing a ≡ true → is_pending a ≡ false
unfolding is_committing is_pending
committing_unpending a h = ground arith
