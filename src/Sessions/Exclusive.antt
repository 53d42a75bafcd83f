-- ===== src/Sessions/Exclusive.antt =====
-- Saving a session compares revisions, so of two writers that saw the same one only one succeeds.
use aifluxon.Sessions.{
  SessionRecord, SessionStore, StoreError, conflict, save, delete, is_current, bumped,
}
use aifluxon.Prelude.Map.{lookup, lookup-insert, lookup-remove}
use aifluxon.Core.Message.{SessionId}
use aifluxon.Core.Run.{u64_max}
use aifluxon.Prelude.{
  ◌==◌, Bool-cases, All, Result, ℕ, ◌<◌, ◌≡◌, sym, subst₂, ◌≢◌, inl, inr, false, some, List, [],
  ◌∷◌, arith, ok, err,
}

pub data Write (V : Type 0) : Type 0 where
  saves : ℕ → SessionRecord V → Write V
  deletes : SessionId → Write V

module _ {V : Type 0} where
  abbrev saved_store :
      SessionStore V → Result StoreError (SessionRecord V × SessionStore V) → SessionStore V
  saved_store s (ok (r, t)) = t
  saved_store s (err e) = s

  abbrev deleted_store : SessionStore V → Result StoreError (SessionStore V) → SessionStore V
  deleted_store s (ok t) = t
  deleted_store s (err e) = s

  unfoldable pub write : SessionStore V → Write V → SessionStore V
  write s (saves now r) = saved_store s (save now r s)
  write s (deletes id) = deleted_store s (delete id s)

  unfoldable pub write_all : SessionStore V → List (Write V) → SessionStore V
  write_all s [] = s
  write_all s (w ∷ ws) = write_all (write s w) ws

  -- The write does not delete the session.
  abbrev pub Keeps : SessionId → Write V → Type 0
  Keeps id (saves now r) = Unit
  Keeps id (deletes other) = id ≢ other

  -- The stored session is newer than revision n.
  pub record IsNewer (id : SessionId) (n : ℕ) (s : SessionStore V) : Type 0 where
    pub live : s.poisoned ≡ false
    pub stored : SessionRecord V
    pub there : lookup id s.records ≡ some stored
    pub newer : n < stored.revision

  save-IsNewer :
      (s : SessionStore V) (id : SessionId) (n now : ℕ) (r : SessionRecord V)
      → n < u64_max
      → IsNewer id n s
      → IsNewer id n (write s (saves now r))
  unfolding write save is_current bumped
  save-IsNewer s id n now r small h = elim (Bool-cases (r.id == id)) [
    | inl hit ↦ elim (Bool-cases (h.stored.revision == r.revision)) [
      | inl current ↦ record {
        live = ground (arith, h.live);
        stored = bumped now r;
        there = ground (arith, h.live, h.there, lookup-insert r.id id (bumped now r) s.records);
        newer = ground (arith, h.newer);
      }
      | inr stale ↦ record {
        live = ground (arith, h.live);
        stored = h.stored;
        there = ground (arith, h.live, h.there);
        newer = h.newer;
      }
    ]
    | inr miss ↦ record {
      live = ground (arith, h.live);
      stored = h.stored;
      there = ground (arith, h.live, h.there, lookup-insert r.id id (bumped now r) s.records);
      newer = h.newer;
    }
  ]

  write-IsNewer :
      (s : SessionStore V) (w : Write V) (id : SessionId) (n : ℕ)
      → n < u64_max
      → Keeps id w
      → IsNewer id n s
      → IsNewer id n (write s w)
  unfolding write delete
  write-IsNewer s (saves now r) id n small k h = save-IsNewer s id n now r small h
  write-IsNewer s (deletes other) id n small k h = record {
    live = ground (arith, h.live);
    stored = h.stored;
    there = ground (arith, h.live, h.there, lookup-remove other id s.records);
    newer = h.newer;
  }

  write_all-IsNewer :
      (s : SessionStore V) (ws : List (Write V)) (id : SessionId) (n : ℕ)
      → n < u64_max
      → All (Keeps id) ws
      → IsNewer id n s
      → IsNewer id n (write_all s ws)
  unfolding write_all
  write_all-IsNewer s [] id n small k h = h
  write_all-IsNewer s (w ∷ ws) id n small k h =
      write_all-IsNewer (write s w) ws id n small k.1 (write-IsNewer s w id n small k.0 h)

  refused :
      (s : SessionStore V) (now : ℕ) (r : SessionRecord V)
      → IsNewer r.id r.revision s
      → save now r s ≡ err conflict
  unfolding save is_current
  refused s now r h = ground (arith, h.live, h.there, h.newer)

  first-IsNewer :
      (s t : SessionStore V) (now : ℕ) (r saved : SessionRecord V)
      → r.revision < u64_max
      → save now r s ≡ ok (saved, t)
      → IsNewer r.id r.revision t
  unfolding save bumped
  first-IsNewer s t now r saved small e = record {
    live = ground arith;
    stored = bumped now r;
    there = ground (arith, lookup-insert r.id r.id (bumped now r) s.records);
    newer = ground arith;
  }

  -- After a save at a revision below u64::MAX, every save of the same session at that revision is a
  -- conflict, whatever was saved or deleted in between, unless the session itself was deleted.
  pub save_once :
      (s t : SessionStore V) (now later : ℕ) (r again saved : SessionRecord V) (ws : List (Write V))
      → save now r s ≡ ok (saved, t)
      → r.revision < u64_max
      → All (Keeps r.id) ws
      → again.id ≡ r.id
      → again.revision ≡ r.revision
      → save later again (write_all t ws) ≡ err conflict
  save_once s t now later r again saved ws e small k same_id same_revision =
      refused (write_all t ws) later again (
        subst₂ (λ i n. IsNewer i n (write_all t ws)) (sym same_id) (sym same_revision)
          (write_all-IsNewer t ws r.id r.revision small k (first-IsNewer s t now r saved small e)))
