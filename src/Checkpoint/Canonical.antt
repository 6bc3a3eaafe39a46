-- ===== src/Checkpoint/Canonical.antt =====
-- `canonicalize_checkpoint_metadata` of integrations/checkpoint/base.py: a form of the metadata
-- that forgets the order of the keys of each mapping.
pub mod Total
use cobalt_wren.Prelude.{
  ℕ, Bool, true, false, ◌&&◌, List, [], ◌∷◌, ◌≡◌, refl, ltb, if◌then◌else◌, arith,
}
use native.Mathlib.Decide.{ℕ_discrete}
use cobalt_wren.Prelude.Equality.{◌==◌, nat_eq, list_eq, beq_refl}
use cobalt_wren.Prelude.Int.{ℤ, int_eq}
use cobalt_wren.Prelude.Result.{ok, ◌>>=◌}
use cobalt_wren.Prelude.Text.{Text}
use cobalt_wren.Core.Value.{
  Value, null, bool, int, float, str, list, dict, Items, nil, cons, Fields, end, field, key_text,
  Float, nan, infinity, finite,
}
use cobalt_wren.Checkpoint.Errors.{Checked, reject, invalid_metadata}
use cobalt_wren.Checkpoint.Normalize.{normalize_checkpoint_metadata}

-- The tagged tuples `('null',)`, `('bool', b)` and so on; `object` holds sorted pairs.
mutual
  pub data Canonical : Type 0 where
    nothing : Canonical
    truth : Bool → Canonical
    integer : ℤ → Canonical
    real : Float → Canonical
    string : Text → Canonical
    sequence : Elements → Canonical
    object : Pairs → Canonical

  pub data Elements : Type 0 where
    no_elements : Elements
    element : Canonical → Elements → Elements

  pub data Pairs : Type 0 where
    no_pairs : Pairs
    pair : Text → Canonical → Pairs → Pairs

-- The order of `sorted` on texts: by code points, a prefix first.
abbrev pub text_lt : Text → Text → Bool
text_lt [] [] = false
text_lt [] (d ∷ t) = true
text_lt (c ∷ s) [] = false
text_lt (c ∷ s) (d ∷ t) = if c == d then text_lt s t else ltb c d

-- One step of `sorted(value.keys())`.
pub insert_pair : Text → Canonical → Pairs → Pairs
insert_pair k v no_pairs = pair k v no_pairs
insert_pair k v (pair j w ps) =
    let rest = insert_pair k v ps in if text_lt j k then pair j w rest else pair k v (pair j w ps)

unfoldable mutual
  unfolding insert_pair

  pub canonicalize_value : Value → Checked Canonical
  canonicalize_value null = ok nothing
  canonicalize_value (bool b) = ok (truth b)
  canonicalize_value (int n) = ok (integer n)
  canonicalize_value (float x) = ok (real x)
  canonicalize_value (str s) = ok (string s)
  canonicalize_value (list vs) = do cs ← canonicalize_items vs; ok (sequence cs)
  canonicalize_value (dict fs) = do ps ← canonicalize_fields fs; ok (object ps)
  canonicalize_value _ = reject invalid_metadata

  pub canonicalize_items : Items → Checked Elements
  canonicalize_items nil = ok no_elements
  canonicalize_items (cons v vs) = do
    c ← canonicalize_value v
    cs ← canonicalize_items vs
    ok (element c cs)

  pub canonicalize_fields : Fields → Checked Pairs
  canonicalize_fields end = ok no_pairs
  canonicalize_fields (field k v fs) = do
    c ← canonicalize_value v
    ps ← canonicalize_fields fs
    ok (insert_pair (key_text k) c ps)

unfoldable pub canonicalize_checkpoint_metadata : Value → Checked Canonical
unfolding canonicalize_value
canonicalize_checkpoint_metadata metadata = do
  fs ← normalize_checkpoint_metadata metadata
  canonicalize_value (dict fs)

unfoldable pub Canonical-discrete : Discrete Canonical
Canonical-discrete = hlevel ℕ_discrete
