-- ===== src/Checkpoint/Errors.antt =====
-- The errors of integrations/checkpoint: the exception class and its code.
use cobalt_wren.Prelude.Result.{Result}

-- `validation` is CheckpointValidationError, `conflict` CheckpointConflictError, `integrity`
-- CheckpointIntegrityError; each carries its `code`.
pub data ValidationCode : Type 0 where
  invalid_run_id invalid_namespace invalid_checkpoint_id invalid_serializer_name : ValidationCode
  invalid_serializer_version invalid_content_type invalid_body invalid_metadata : ValidationCode
  self_parent : ValidationCode

pub data ConflictCode : Type 0 where
  store_conflict stale_parent : ConflictCode

pub data IntegrityCode : Type 0 where
  invalid_revision invalid_size invalid_digest integrity_failure : IntegrityCode

pub data CheckpointError : Type 0 where
  validation : ValidationCode → CheckpointError
  conflict : ConflictCode → CheckpointError
  integrity : IntegrityCode → CheckpointError

abbrev pub Checked : Type 0 → Type 0
Checked A = Result CheckpointError A

abbrev pub reject : {A : Type 0} → ValidationCode → Checked A
reject c = Result.err (validation c)
