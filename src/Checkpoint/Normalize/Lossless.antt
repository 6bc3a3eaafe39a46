-- ===== src/Checkpoint/Normalize/Lossless.antt =====
-- Metadata that integrations/checkpoint/base.py accepts is kept as it is.
use cobalt_wren.Prelude.{ℕ, suc, ◌≡◌, refl, arith, length, if◌then◌else◌, ltb}
use cobalt_wren.Prelude.Result.{ok, >>=-eq-ok}
use cobalt_wren.Prelude.Text.{Text}
use cobalt_wren.Checkpoint.Errors.{Checked, reject, invalid_metadata}
use cobalt_wren.Core.Value.{
  Value, null, bool, int, float, str, list, dict, Items, nil, cons, Fields, end, field, name,
  foreign, nan, infinity, finite, items_len, fields_len,
}
use cobalt_wren.Checkpoint.Normalize.{
  normalize_metadata_value, normalize_metadata_items, normalize_metadata_fields,
  normalize_checkpoint_metadata, within_depth, within_items, max_identifier_length, as_fields,
}

pub within_depth_ok :
    {A : Type 0} (d : ℕ) (r : Checked A) (a : A) → within_depth d r ≡ ok a → r ≡ ok a
within_depth_ok d r a h = ground arith

pub within_items_ok :
    {A : Type 0} (n : ℕ) (r : Checked A) (a : A) → within_items n r ≡ ok a → r ≡ ok a
within_items_ok n r a h = ground arith

pub short_key_ok :
    (t : Text) (r : Checked Fields) (gs : Fields)
    → (if ltb max_identifier_length (length t) then reject invalid_metadata else r) ≡ ok gs
    → r ≡ ok gs
short_key_ok t r gs h = ground arith

mutual
  unfolding normalize_metadata_value normalize_metadata_items normalize_metadata_fields

  value_lossless : (v : Value) (d : ℕ) (w : Value) → normalize_metadata_value d v ≡ ok w → w ≡ v
  value_lossless null d w h = ground arith
  value_lossless (bool b) d w h = ground arith
  value_lossless (int n) d w h = ground arith
  value_lossless (float nan) d w h = cc
  value_lossless (float (infinity b)) d w h = cc
  value_lossless (float (finite m e)) d w h = ground arith
  value_lossless (str s) d w h = ground arith
  value_lossless (dict fs) d w h =
      let (gs, e, e') =
        >>=-eq-ok (normalize_metadata_fields (suc d) fs) _
          (within_items_ok (fields_len fs) _ w (within_depth_ok d _ w h)) in
      cc (e', fields_lossless fs (suc d) gs e)
  value_lossless (list vs) d w h =
      let (ws, e, e') =
        >>=-eq-ok (normalize_metadata_items (suc d) vs) _
          (within_items_ok (items_len vs) _ w (within_depth_ok d _ w h)) in
      cc (e', items_lossless vs (suc d) ws e)
  value_lossless _ d w h = cc

  items_lossless :
      (vs : Items) (d : ℕ) (ws : Items) → normalize_metadata_items d vs ≡ ok ws → ws ≡ vs
  items_lossless nil d ws h = cc
  items_lossless (cons v vs) d ws h =
      let (w, e, k) = >>=-eq-ok (normalize_metadata_value d v) _ h in
      let (us, e', k') = >>=-eq-ok (normalize_metadata_items d vs) _ k in
      cc (k', value_lossless v d w e, items_lossless vs d us e')

  fields_lossless :
      (fs : Fields) (d : ℕ) (gs : Fields) → normalize_metadata_fields d fs ≡ ok gs → gs ≡ fs
  fields_lossless end d gs h = cc
  fields_lossless (field (foreign t) v fs) d gs h = cc
  fields_lossless (field (name t) v fs) d gs h =
      let (w, e, k) = >>=-eq-ok (normalize_metadata_value d v) _ (short_key_ok t _ gs h) in
      let (us, e', k') = >>=-eq-ok (normalize_metadata_fields d fs) _ k in
      cc (k', value_lossless v d w e, fields_lossless fs d us e')

-- The metadata that the normalizer returns for a mapping is that mapping.
pub metadata_lossless : (fs gs : Fields) → normalize_checkpoint_metadata (dict fs) ≡ ok gs → gs ≡ fs
unfolding normalize_checkpoint_metadata
metadata_lossless fs gs h =
    let (w, e, k) = >>=-eq-ok (normalize_metadata_value 0 (dict fs)) as_fields h in
    ground (arith, value_lossless (dict fs) 0 w e)

null_metadata : (gs : Fields) → normalize_checkpoint_metadata null ≡ ok gs → gs ≡ end
unfolding normalize_checkpoint_metadata
null_metadata gs h = cc

empty_metadata : normalize_checkpoint_metadata (dict end) ≡ ok end
unfolding normalize_checkpoint_metadata normalize_metadata_value
empty_metadata = refl

pub normalize_metadata_stable :
    (v : Value) (gs : Fields)
    → normalize_checkpoint_metadata v ≡ ok gs
    → normalize_checkpoint_metadata (dict gs) ≡ ok gs
normalize_metadata_stable (dict fs) gs h = rw (← metadata_lossless fs gs h) at h
normalize_metadata_stable null gs h = rw (null_metadata gs h) empty_metadata
normalize_metadata_stable _ gs h = unfold normalize_checkpoint_metadata in cc
