-- ===== src/Checkpoint/Normalize/Stable.antt =====
-- The normalizers of integrations/checkpoint/base.py accept their own results, and give them back.
use cobalt_wren.Prelude.{[], ◌≡◌, arith}
use cobalt_wren.Prelude.Equality.{nat_eq, list_eq, list_beq_iff, beq_refl}
use cobalt_wren.Prelude.Int.{ℤ}
use cobalt_wren.Prelude.Result.{ok}
use cobalt_wren.Prelude.Text.{Text, strip, lower}
use cobalt_wren.Prelude.Text.Strip.{strip-strip, strip-lower, lower-lower}
use cobalt_wren.Core.Value.{Value, null, int, str}
use cobalt_wren.Checkpoint.Normalize.{
  RunId, number, label, normalize_checkpoint_run_id, normalize_checkpoint_namespace,
  normalize_checkpoint_id, normalize_checkpoint_serializer_name,
  normalize_checkpoint_serializer_version, normalize_checkpoint_content_type,
}

-- The value of a run identifier.
abbrev pub run_id_value : RunId → Value
run_id_value (number n) = int n
run_id_value (label s) = str s

pub normalize_run_id_stable :
    (v : Value) (r : RunId)
    → normalize_checkpoint_run_id v ≡ ok r
    → normalize_checkpoint_run_id (run_id_value r) ≡ ok r
unfolding normalize_checkpoint_run_id
normalize_run_id_stable (int n) r h = ground arith
normalize_run_id_stable (str s) (number n) h = ground arith
normalize_run_id_stable (str s) (label t) h = ground (arith, strip-strip s)
normalize_run_id_stable _ r h = cc

namespace_same : (s t : Text) → normalize_checkpoint_namespace (str s) ≡ ok t → s ≡ t
unfolding normalize_checkpoint_namespace
namespace_same s t h = ground (arith, list_beq_iff s [])

pub normalize_namespace_stable :
    (v : Value) (t : Text)
    → normalize_checkpoint_namespace v ≡ ok t
    → normalize_checkpoint_namespace (str t) ≡ ok t
normalize_namespace_stable (str s) t h = rw (namespace_same s t h) at h
normalize_namespace_stable null t h = unfold normalize_checkpoint_namespace in cc
normalize_namespace_stable _ t h = unfold normalize_checkpoint_namespace in cc

pub id_same : (v : Value) (t : Text) → normalize_checkpoint_id v ≡ ok t → v ≡ str t
unfolding normalize_checkpoint_id
id_same (str s) t h = ground arith
id_same null t h = cc
id_same _ t h = cc

pub normalize_id_stable :
    (v : Value) (t : Text)
    → normalize_checkpoint_id v ≡ ok t
    → normalize_checkpoint_id (str t) ≡ ok t
normalize_id_stable v t h = rw (id_same v t h) at h

serializer_name_same :
    (v : Value) (t : Text) → normalize_checkpoint_serializer_name v ≡ ok t → v ≡ str t
unfolding normalize_checkpoint_serializer_name
serializer_name_same (str s) t h = ground arith
serializer_name_same null t h = cc
serializer_name_same _ t h = cc

pub normalize_serializer_name_stable :
    (v : Value) (t : Text)
    → normalize_checkpoint_serializer_name v ≡ ok t
    → normalize_checkpoint_serializer_name (str t) ≡ ok t
normalize_serializer_name_stable v t h = rw (serializer_name_same v t h) at h

serializer_version_same :
    (v : Value) (n : ℤ) → normalize_checkpoint_serializer_version v ≡ ok n → v ≡ int n
unfolding normalize_checkpoint_serializer_version
serializer_version_same (int n) m h = ground arith
serializer_version_same null m h = cc
serializer_version_same _ m h = cc

pub normalize_serializer_version_stable :
    (v : Value) (n : ℤ)
    → normalize_checkpoint_serializer_version v ≡ ok n
    → normalize_checkpoint_serializer_version (int n) ≡ ok n
normalize_serializer_version_stable v n h = rw (serializer_version_same v n h) at h

-- What the tests on a lowered content type leave.
content_type_lowered :
    (s t : Text) → normalize_checkpoint_content_type (str s) ≡ ok t → (strip t ≡ t) × (t ≡ lower s)
unfolding normalize_checkpoint_content_type
content_type_lowered s t h = ground (arith, list_beq_iff s (strip s), strip-lower s)

content_type_stripped :
    (s t : Text) → normalize_checkpoint_content_type (str s) ≡ ok t → strip s ≡ s
unfolding normalize_checkpoint_content_type
content_type_stripped s t h = ground (arith, list_beq_iff s (strip s))

lowered_content_type :
    (s : Text)
    → strip s ≡ s
    → (t : Text) → normalize_checkpoint_content_type (str s) ≡ ok t
    → normalize_checkpoint_content_type (str (lower s)) ≡ ok t
unfolding normalize_checkpoint_content_type
lowered_content_type s e t h =
    rw (lower-lower s) (ground (arith, beq_refl s, beq_refl (lower s), strip-lower s, h))

pub normalize_content_type_stable :
    (v : Value) (t : Text)
    → normalize_checkpoint_content_type v ≡ ok t
    → normalize_checkpoint_content_type (str t) ≡ ok t
normalize_content_type_stable (str s) t h = rw (content_type_lowered s t h).1 (
    rw (content_type_lowered s t h).1 at (lowered_content_type s (content_type_stripped s t h) t h))
normalize_content_type_stable null t h = unfold normalize_checkpoint_content_type in cc
normalize_content_type_stable _ t h = unfold normalize_checkpoint_content_type in cc
