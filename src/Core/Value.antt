-- ===== src/Core/Value.antt =====
-- Values of the dynamic language, as far as the code looks into them. A container is a tree here:
-- the code's guards against cyclic containers (`seen`) never fire on a tree.
use cobalt_wren.Prelude.{ℕ, Bool, List, suc}
use cobalt_wren.Prelude.Int.{ℤ}
use cobalt_wren.Prelude.Text.{Text}

-- `isfinite` tells `finite` from the others. A finite value is a mantissa and an exponent.
pub data Float : Type 0 where
  nan : Float
  infinity : Bool → Float
  finite : ℤ → ℤ → Float

-- A key of a mapping: a `str`, or another object with what `str(key)` gives.
pub data Key : Type 0 where
  name foreign : Text → Key

mutual
  -- `other` is any other object: the name of its type and what `str(value)` gives.
  pub data Value : Type 0 where
    null : Value
    bool : Bool → Value
    int : ℤ → Value
    float : Float → Value
    str : Text → Value
    bytes bytearray memoryview : List ℕ → Value
    list tuple : Items → Value
    dict : Fields → Value
    other : Text → Text → Value

  pub data Items : Type 0 where
    nil : Items
    cons : Value → Items → Items

  -- The items of a mapping, in its order. The keys of a mapping differ.
  pub data Fields : Type 0 where
    end : Fields
    field : Key → Value → Fields → Fields

-- `str(key)`
abbrev pub key_text : Key → Text
key_text (name t) = t
key_text (foreign t) = t

-- `len` of a sequence and of a mapping
abbrev pub items_len : Items → ℕ
items_len nil = 0
items_len (cons v vs) = suc (items_len vs)

abbrev pub fields_len : Fields → ℕ
fields_len end = 0
fields_len (field k v fs) = suc (fields_len fs)
