-- ===== src/Checkpoint/MemoryStore/History.antt =====
-- The abstract view of a stream of the in-memory checkpoint store: a history, the newest record
-- first, each record made on top of the one before it.
use cobalt_wren.Prelude.{
  ℕ, zero, suc, ◌<◌, Bool, true, false, Option, none, some, List, [], ◌∷◌, ◌++◌, ◌≡◌, refl, length,
  arith, subst, if◌then◌else◌,
}
use cobalt_wren.Prelude.Dict.{Dict, get, put, keys, get-put, put_fresh}
use cobalt_wren.Prelude.Equality.{◌==◌, nat_eq, list_eq, list_beq_iff}
use cobalt_wren.Prelude.Text.{Text}
use cobalt_wren.Prelude.Result.{ok}
use cobalt_wren.Checkpoint.Types.{stored_checkpoint}
use cobalt_wren.Checkpoint.MemoryStore.{
  Sha256, MemoryCheckpointRecord, MemoryCheckpointStream, body_digest,
}

abbrev pub History : Type 0
History = List MemoryCheckpointRecord

abbrev pub record_id : MemoryCheckpointRecord → Text
record_id r = r.descriptor.checkpoint_id

abbrev pub head_id : History → Option Text
head_id [] = none
head_id (r ∷ c) = some (record_id r)

unfoldable pub by_id : History → Dict Text MemoryCheckpointRecord
by_id [] = []
by_id (r ∷ c) = put (by_id c) (record_id r) r

unfoldable pub by_revision : History → Dict ℕ Text
by_revision [] = []
by_revision (r ∷ c) = put (by_revision c) (suc (length c)) (record_id r)

-- The representation of a history.
unfoldable pub stream_of : History → MemoryCheckpointStream
unfolding by_id by_revision
stream_of c = record {
  records_by_id = by_id c;
  records_by_revision = by_revision c;
  head_checkpoint_id = head_id c;
}

-- Python's `records_by_id.get` on a history.
abbrev pub find : History → Text → Option MemoryCheckpointRecord
find [] id = none
find (r ∷ c) id = if record_id r == id then some r else find c id

module _ (sha256 : Sha256) where
  -- What a record on top of the history `c` is.
  pub record Extends (c : History) (r : MemoryCheckpointRecord) : Type 0 where
    pub fresh : find c (record_id r) ≡ none
    pub parent : r.descriptor.parent_checkpoint_id ≡ head_id c
    pub revision : r.descriptor.revision ≡ suc (length c)
    pub size : r.descriptor.size ≡ length r.body
    pub digest : r.descriptor.digest ≡ body_digest sha256 r.body
    pub normal : stored_checkpoint r.descriptor ≡ ok r.descriptor

  abbrev pub IsHistory : History → Type 0
  IsHistory [] = Unit
  IsHistory (r ∷ c) = Extends c r × IsHistory c

  pub find-Extends :
      (c : History) (id : Text) (r : MemoryCheckpointRecord)
      → IsHistory c
      → find c id ≡ some r
      → (d : History) × Extends d r × (record_id r ≡ id)
  find-Extends [] id r h e = cc
  find-Extends (s ∷ c) id r h e =
      by_test (record_id s == id) refl (λ k. find-Extends c id r h.1 k) e
    where
      by_test :
          (b : Bool)
          → (record_id s == id) ≡ b
          → (find c id ≡ some r → (d : History) × Extends d r × (record_id r ≡ id))
          → (if b then some s else find c id) ≡ some r
          → (d : History) × Extends d r × (record_id r ≡ id)
      by_test true t rest k =
          let p : s ≡ r = cc (k) in
          (c, subst (Extends c) p h.0, (list_beq_iff (record_id r) id).0 (rw p at t))
      by_test false t rest k = rest k

pub get-by_id : (c : History) (id : Text) → get (by_id c) id ≡ find c id
unfolding by_id
get-by_id [] id = refl
get-by_id (r ∷ c) id = rw (get-put (by_id c) (record_id r) id r) (rw (get-by_id c id))

pub get-by_revision_above : (c : History) (n : ℕ) → length c < n → get (by_revision c) n ≡ none
unfolding by_revision
get-by_revision_above [] n h = refl
get-by_revision_above (r ∷ c) n h =
    rw (get-put (by_revision c) (suc (length c)) n (record_id r))
      (ground (arith, get-by_revision_above c n))

-- 1, 2, ..., n
abbrev pub up_to : ℕ → List ℕ
up_to zero = []
up_to (suc n) = up_to n ++ suc n ∷ []

keys_snoc : (d : Dict ℕ Text) (n : ℕ) (t : Text) → keys (d ++ (n, t) ∷ []) ≡ keys d ++ n ∷ []
keys_snoc [] n t = refl
keys_snoc ((m, u) ∷ d) n t = rw (keys_snoc d n t)

pub keys-by_revision : (c : History) → keys (by_revision c) ≡ up_to (length c)
unfolding by_revision
keys-by_revision [] = refl
keys-by_revision (r ∷ c) =
    rw
      (put_fresh (by_revision c) (suc (length c)) (record_id r)
        (get-by_revision_above c (suc (length c)) (omega arith)))
      (rw (keys_snoc (by_revision c) (suc (length c)) (record_id r)) (rw (keys-by_revision c)))
