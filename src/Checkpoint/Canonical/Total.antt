-- ===== src/Checkpoint/Canonical/Total.antt =====
-- Metadata that the normalizer of integrations/checkpoint/base.py accepts has a canonical form.
use cobalt_wren.Prelude.{ℕ, suc, ◌≡◌, refl}
use cobalt_wren.Prelude.Result.{ok, on_ok}
use cobalt_wren.Core.Value.{
  Value, null, bool, int, float, str, list, dict, Items, nil, cons, Fields, end, field, name,
  foreign, items_len, fields_len,
}
use cobalt_wren.Checkpoint.Normalize.{
  normalize_metadata_value, normalize_metadata_items, normalize_metadata_fields,
  normalize_checkpoint_metadata, as_fields,
}
use cobalt_wren.Checkpoint.Normalize.Lossless.{within_depth_ok, within_items_ok, short_key_ok}
use cobalt_wren.Checkpoint.Canonical.{
  Canonical, Elements, Pairs, nothing, truth, integer, real, string, sequence, object, no_elements,
  element, no_pairs, insert_pair, canonicalize_value, canonicalize_items, canonicalize_fields,
  canonicalize_checkpoint_metadata,
}

mutual
  unfolding canonicalize_value canonicalize_items canonicalize_fields normalize_metadata_value
      normalize_metadata_items normalize_metadata_fields

  value_total :
      (v : Value) (d : ℕ) (w : Value)
      → normalize_metadata_value d v ≡ ok w
      → (c : Canonical) × (canonicalize_value v ≡ ok c)
  value_total null d w h = (nothing, refl)
  value_total (bool b) d w h = (truth b, refl)
  value_total (int n) d w h = (integer n, refl)
  value_total (float x) d w h = (real x, refl)
  value_total (str s) d w h = (string s, refl)
  value_total (dict fs) d w h =
      on_ok (normalize_metadata_fields (suc d) fs) _
        (within_items_ok (fields_len fs) _ w (within_depth_ok d _ w h))
        λ gs e k. let (ps, p) = fields_total fs (suc d) gs e in (object ps, rw p)
  value_total (list vs) d w h =
      on_ok (normalize_metadata_items (suc d) vs) _
        (within_items_ok (items_len vs) _ w (within_depth_ok d _ w h))
        λ ws e k. let (cs, p) = items_total vs (suc d) ws e in (sequence cs, rw p)
  value_total _ d w h = absurd (cc)

  items_total :
      (vs : Items) (d : ℕ) (ws : Items)
      → normalize_metadata_items d vs ≡ ok ws
      → (cs : Elements) × (canonicalize_items vs ≡ ok cs)
  items_total nil d ws h = (no_elements, refl)
  items_total (cons v vs) d ws h = on_ok (normalize_metadata_value d v) _ h λ w e k.
      on_ok (normalize_metadata_items d vs) _ k λ us e' k'.
        let (c, p) = value_total v d w e in
        let (cs, q) = items_total vs d us e' in (element c cs, rw p (rw q))

  fields_total :
      (fs : Fields) (d : ℕ) (gs : Fields)
      → normalize_metadata_fields d fs ≡ ok gs
      → (ps : Pairs) × (canonicalize_fields fs ≡ ok ps)
  fields_total end d gs h = (no_pairs, refl)
  fields_total (field (foreign t) v fs) d gs h = absurd (cc)
  fields_total (field (name t) v fs) d gs h =
      on_ok (normalize_metadata_value d v) _ (short_key_ok t _ gs h) λ w e k.
        on_ok (normalize_metadata_fields d fs) _ k λ us e' k'.
          let (c, p) = value_total v d w e in
          let (ps, q) = fields_total fs d us e' in (insert_pair t c ps, rw p (rw q))

-- Metadata that the normalizer accepts unchanged has a canonical form.
pub canonicalize_total :
    (fs : Fields)
    → normalize_checkpoint_metadata (dict fs) ≡ ok fs
    → (c : Canonical) × (canonicalize_checkpoint_metadata (dict fs) ≡ ok c)
unfolding canonicalize_checkpoint_metadata normalize_checkpoint_metadata
canonicalize_total fs h =
    on_ok (normalize_metadata_value 0 (dict fs)) as_fields h
      λ w e k. let (c, p) = value_total (dict fs) 0 w e in (c, rw h p)
