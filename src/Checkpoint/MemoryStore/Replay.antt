-- ===== src/Checkpoint/MemoryStore/Replay.antt =====
-- Repeated requests to integrations/checkpoint/memory_store.py.
use mathlib.Core.Bool.{decide}
use cobalt_wren.Prelude.{
  ℕ, Bool, true, false, ◌&&◌, Option, none, some, ◌≡◌, refl, arith, if◌then◌else◌,
}
use cobalt_wren.Prelude.Equality.{◌==◌, nat_eq, list_eq, list_beq_iff, beq_refl}
use cobalt_wren.Prelude.Int.{int_eq}
use cobalt_wren.Prelude.Text.{Text}
use cobalt_wren.Prelude.Result.{ok, err, on_ok}
use cobalt_wren.Checkpoint.Errors.{Checked, conflict, store_conflict}
use cobalt_wren.Checkpoint.Canonical.{Canonical, Canonical-discrete}
use cobalt_wren.Checkpoint.Canonical.Total.{canonicalize_total}
use cobalt_wren.Checkpoint.Types.{CheckpointWriteRequest, StoredCheckpoint, run_id_eq}
use cobalt_wren.Checkpoint.Types.Normal.{IsRequest}
use cobalt_wren.Checkpoint.MemoryStore.{
  Sha256, MemoryCheckpointRecord, option_beq, canonical_beq, same_canonical_request, same_fields,
  same_metadata,
}
use cobalt_wren.Checkpoint.MemoryStore.Refinement.{replay, new_record}

canonical_beq_refl : (c : Canonical) → canonical_beq c c ≡ true
unfolding canonical_beq decide
canonical_beq_refl c = by_case (Canonical-discrete c c)
  where
    by_case : (d : Dec (c ≡ c)) → decide d ≡ true
    by_case (yes p) = refl
    by_case (no n) = absurd (n refl)

option_beq_refl : (o : Option Text) → option_beq o o ≡ true
option_beq_refl none = refl
option_beq_refl (some t) = beq_refl t

if_ok_true : (b : Bool) (m : Checked Bool) → (if b then m else ok false) ≡ ok true → b ≡ true
if_ok_true true m h = refl
if_ok_true false m h = cc

and_right : (a b : Bool) → a && b ≡ true → b ≡ true
and_right a b h = ground arith

and_left : (a b : Bool) → a && b ≡ true → a ≡ true
and_left a b h = ground arith

same_fields-body :
    (e : MemoryCheckpointRecord) (r : CheckpointWriteRequest)
    → same_fields e r ≡ true
    → e.body ≡ r.body
same_fields-body e r h =
    let d = e.descriptor in
    (list_beq_iff e.body r.body).0 (
      and_left (e.body == r.body) _ (
        and_right (option_beq d.parent_checkpoint_id r.parent_checkpoint_id) _ (
          and_right (d.checkpoint_id == r.checkpoint_id) _ (
            and_right (d.checkpoint_namespace == r.checkpoint_namespace) _
              (and_right (d.run_id == r.run_id) _ h)))))

-- A request that is taken as a repetition has the body that is stored.
pub same-body :
    (e : MemoryCheckpointRecord) (r : CheckpointWriteRequest)
    → same_canonical_request e r ≡ ok true
    → e.body ≡ r.body
unfolding same_canonical_request
same-body e r h = same_fields-body e r (if_ok_true (same_fields e r) (same_metadata e r) h)

pub replay-eq-ok :
    (e : MemoryCheckpointRecord) (r : CheckpointWriteRequest) (d : StoredCheckpoint)
    → replay e r ≡ ok d
    → (e.descriptor ≡ d) × (e.body ≡ r.body)
unfolding replay
replay-eq-ok e r d h = on_ok (same_canonical_request e r) _ h λ b p k. by_same b p k
  where
    by_same :
        (b : Bool)
        → same_canonical_request e r ≡ ok b
        → (if b then ok e.descriptor else err (conflict store_conflict)) ≡ ok d
        → (e.descriptor ≡ d) × (e.body ≡ r.body)
    by_same true p k = (cc, same-body e r p)
    by_same false p k = absurd (cc)

module _ (sha256 : Sha256) where
  -- A request made again is a repetition of the record that it made.
  pub same_canonical_request-new :
      (r : CheckpointWriteRequest) (n : ℕ)
      → IsRequest r
      → same_canonical_request (new_record sha256 r n) r ≡ ok true
  unfolding same_canonical_request
  same_canonical_request-new r n h =
      let (c, e) = canonicalize_total r.metadata h.metadata in
      rw (beq_refl r.run_id) (
        rw (beq_refl r.checkpoint_namespace) (
          rw (beq_refl r.checkpoint_id) (
            rw (option_beq_refl r.parent_checkpoint_id) (
              rw (beq_refl r.body) (
                rw (beq_refl r.serializer_name) (
                  rw (beq_refl r.serializer_version)
                    (rw (beq_refl r.content_type) (rw e (rw (canonical_beq_refl c))))))))))
