-- ===== src/Coordinator/Interleaving.antt =====
-- What holds of a process whatever other threads do to the table while it waits.
use aifluxon.Runs.History
use aifluxon.Coordinator.Process.{
  Fault, Effect, issues, reads, Answer, Process, done, effect, Event, other, proceeds, cancels,
  number, picked, executed, turned, deliver, after, ◌>>=◌, take, advance, play,
}
use aifluxon.Runs.History.{Call, step, run}
use aifluxon.Runs.Table.{RunTable}
use aifluxon.Prelude.{
  some, List, [], ◌∷◌, ◌++◌, ◌≡◌, refl, Result, ok, err, sym, ap, subst, ◌∙◌, Option, none,
}

module _ {V : Type 0} where
  pub run-append :
      (t : RunTable V) (cs ds : List (Call V))
      → History.run t (cs ++ ds) ≡ History.run (History.run t cs) ds
  unfolding History.run
  run-append t [] ds = refl
  run-append t (c ∷ cs) ds = run-append (History.step t c) cs ds

  -- The answers that are read off the table.
  abbrev pub Fits : (e : Effect V) → Answer e → RunTable V → Type 0
  Fits (issues c) x u = x ≡ u
  Fits reads x u = x ≡ u
  Fits e x u = Unit

  -- However other threads use the table in between, the process ends in a result and a table that
  -- satisfy Q.
  abbrev pub Always :
      {A : Type 0} → (Result Fault A → RunTable V → Type 0) → Process V A → RunTable V → Type 0
  Always Q (done r) t = (cs : List (Call V)) → Q r (History.run t cs)
  Always Q (effect e k) t =
      (cs : List (Call V)) (x : Answer e)
      → Fits e x (History.run t cs)
      → Always Q (k x) (after (History.run t cs) e)

  -- Other threads may act first.
  pub Always-later :
      {A : Type 0} (Q : Result Fault A → RunTable V → Type 0) (p : Process V A) (t : RunTable V)
      (c : Call V)
      → Always Q p t
      → Always Q p (History.step t c)
  unfolding History.run
  Always-later Q (done r) t c h = λ cs. h (c ∷ cs)
  Always-later Q (effect e k) t c h = λ cs x. h (c ∷ cs) x

  pub Always->>= :
      {A B : Type 0} (Q : Result Fault A → RunTable V → Type 0)
      (R : Result Fault B → RunTable V → Type 0) (p : Process V A) (f : A → Process V B)
      (t : RunTable V)
      → ((a : A) (u : RunTable V) → Q (ok a) u → Always R (f a) u)
      → ((x : Fault) (u : RunTable V) → Q (err x) u → R (err x) u)
      → Always Q p t
      → Always R (p >>= f) t
  unfolding History.run
  Always->>= Q R (done (ok a)) f t good bad h = good a t (h [])
  Always->>= Q R (done (err x)) f t good bad h = λ cs. bad x (History.run t cs) (h cs)
  Always->>= Q R (effect e k) f t good bad h =
      λ cs x fits. Always->>= Q R (k x) f (after (History.run t cs) e) good bad (h cs x fits)

  -- What every call of the table keeps.
  abbrev pub Kept : (RunTable V → Type 0) → Type 0
  Kept I = (t : RunTable V) (c : Call V) → I t → I (History.step t c)

  pub run-Kept :
      (I : RunTable V → Type 0)
      → Kept I
      → (t : RunTable V) (cs : List (Call V)) → I t
      → I (History.run t cs)
  unfolding History.run
  run-Kept I keep t [] h = h
  run-Kept I keep t (c ∷ cs) h = run-Kept I keep (History.step t c) cs (keep t c h)

  pub after-Kept :
      (I : RunTable V → Type 0) → Kept I → (t : RunTable V) (e : Effect V) → I t → I (after t e)
  unfolding after
  after-Kept I keep t (issues c) h = keep t c h
  after-Kept I keep t reads h = h
  after-Kept I keep t _ h = h

  pub Always-Kept :
      {A : Type 0} (I : RunTable V → Type 0)
      → Kept I
      → (p : Process V A) (t : RunTable V) → I t
      → Always (λ r u. I u) p t
  Always-Kept I keep (done r) t h = λ cs. run-Kept I keep t cs h
  Always-Kept I keep (effect e k) t h = λ cs x fits.
      Always-Kept I keep (k x) (after (History.run t cs) e)
        (after-Kept I keep (History.run t cs) e (run-Kept I keep t cs h))

  deliver-Fits :
      (t : RunTable V) (e : Effect V) (event : Event V) (x : Answer e)
      → deliver t e event ≡ some x
      → Fits e x t
  unfolding deliver
  deliver-Fits t (issues c) proceeds x h = cc
  deliver-Fits t (issues c) (other d) x h = cc
  deliver-Fits t (issues c) cancels x h = cc
  deliver-Fits t (issues c) (number n) x h = cc
  deliver-Fits t (issues c) (picked b) x h = cc
  deliver-Fits t (issues c) (executed r) x h = cc
  deliver-Fits t (issues c) (turned r) x h = cc
  deliver-Fits t reads proceeds x h = cc
  deliver-Fits t reads (other d) x h = cc
  deliver-Fits t reads cancels x h = cc
  deliver-Fits t reads (number n) x h = cc
  deliver-Fits t reads (picked b) x h = cc
  deliver-Fits t reads (executed r) x h = cc
  deliver-Fits t reads (turned r) x h = cc
  deliver-Fits t _ event x h = tt

  take-Always :
      {A : Type 0} (Q : Result Fault A → RunTable V → Type 0) (t : RunTable V) (e : Effect V)
      (k : Answer e → Process V A) (answer : Option (Answer e))
      → ((x : Answer e) → answer ≡ some x → Fits e x t)
      → Always Q (effect e k) t
      → Always Q (take t e k answer).1 (take t e k answer).0
  unfolding take History.run
  take-Always Q t e k none fits h = h
  take-Always Q t e k (some x) fits h = h [] x (fits x refl)

  advance-Always :
      {A : Type 0} (Q : Result Fault A → RunTable V → Type 0) (event : Event V) (t : RunTable V)
      (p : Process V A)
      → Always Q p t
      → Always Q (advance event t p).1 (advance event t p).0
  unfolding advance
  advance-Always Q (other c) t p h = Always-later Q p t c h
  advance-Always Q proceeds t (done r) h = h
  advance-Always Q cancels t (done r) h = h
  advance-Always Q (number n) t (done r) h = h
  advance-Always Q (picked b) t (done r) h = h
  advance-Always Q (executed x) t (done r) h = h
  advance-Always Q (turned x) t (done r) h = h
  advance-Always Q proceeds t (effect e k) h =
      take-Always Q t e k (deliver t e proceeds) (deliver-Fits t e proceeds) h
  advance-Always Q cancels t (effect e k) h =
      take-Always Q t e k (deliver t e cancels) (deliver-Fits t e cancels) h
  advance-Always Q (number n) t (effect e k) h =
      take-Always Q t e k (deliver t e (number n)) (deliver-Fits t e (number n)) h
  advance-Always Q (picked b) t (effect e k) h =
      take-Always Q t e k (deliver t e (picked b)) (deliver-Fits t e (picked b)) h
  advance-Always Q (executed r) t (effect e k) h =
      take-Always Q t e k (deliver t e (executed r)) (deliver-Fits t e (executed r)) h
  advance-Always Q (turned r) t (effect e k) h =
      take-Always Q t e k (deliver t e (turned r)) (deliver-Fits t e (turned r)) h

  pub play-Always :
      {A : Type 0} (Q : Result Fault A → RunTable V → Type 0) (events : List (Event V))
      (t : RunTable V) (p : Process V A)
      → Always Q p t
      → Always Q (play events t p).1 (play events t p).0
  unfolding play
  play-Always Q [] t p h = h
  play-Always Q (event ∷ events) t p h =
      play-Always Q events (advance event t p).0 (advance event t p).1
        (advance-Always Q event t p h)

  -- A process that has ended did so in a result and a table that satisfy Q.
  pub Always-done :
      {A : Type 0} (Q : Result Fault A → RunTable V → Type 0) (events : List (Event V))
      (t : RunTable V) (p : Process V A) (r : Result Fault A)
      → Always Q p t
      → (play events t p).1 ≡ done r
      → Q r (play events t p).0
  unfolding History.run
  Always-done Q events t p r h e =
      subst (λ q. Always Q q (play events t p).0) e (play-Always Q events t p h) []

  after-run :
      (t : RunTable V) (e : Effect V) → (cs : List (Call V)) × (after t e ≡ History.run t cs)
  unfolding after History.run
  after-run t (issues c) = (c ∷ [], refl)
  after-run t reads = ([], refl)
  after-run t _ = ([], refl)

  take-run :
      {A : Type 0} (t : RunTable V) (e : Effect V) (k : Answer e → Process V A)
      (answer : Option (Answer e))
      → (cs : List (Call V)) × ((take t e k answer).0 ≡ History.run t cs)
  unfolding take History.run
  take-run t e k none = ([], refl)
  take-run t e k (some x) = after-run t e

  advance-run :
      {A : Type 0} (event : Event V) (t : RunTable V) (p : Process V A)
      → (cs : List (Call V)) × ((advance event t p).0 ≡ History.run t cs)
  unfolding advance History.run
  advance-run (other c) t p = (c ∷ [], refl)
  advance-run proceeds t (done r) = ([], refl)
  advance-run proceeds t (effect e k) = take-run t e k (deliver t e proceeds)
  advance-run cancels t (done r) = ([], refl)
  advance-run cancels t (effect e k) = take-run t e k (deliver t e cancels)
  advance-run (number n) t (done r) = ([], refl)
  advance-run (number n) t (effect e k) = take-run t e k (deliver t e (number n))
  advance-run (picked b) t (done r) = ([], refl)
  advance-run (picked b) t (effect e k) = take-run t e k (deliver t e (picked b))
  advance-run (executed x) t (done r) = ([], refl)
  advance-run (executed x) t (effect e k) = take-run t e k (deliver t e (executed x))
  advance-run (turned x) t (done r) = ([], refl)
  advance-run (turned x) t (effect e k) = take-run t e k (deliver t e (turned x))

  -- What processes and other threads do to the table together is a history of its calls.
  pub play-run :
      {A : Type 0} (events : List (Event V)) (t : RunTable V) (p : Process V A)
      → (cs : List (Call V)) × ((play events t p).0 ≡ History.run t cs)
  unfolding play History.run
  play-run [] t p = ([], refl)
  play-run (event ∷ events) t p =
      let (cs, first) = advance-run event t p in
      let (ds, rest) = play-run events (advance event t p).0 (advance event t p).1 in
      (cs ++ ds, rest ∙ ap (λ u. History.run u ds) first ∙ sym (run-append t cs ds))
