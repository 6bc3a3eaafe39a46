-- ===== src/Core/Compare.antt =====
-- Python's `==` and `<` on the values that the program compares.
use Prim.Native.Nat.{◌^◌}
use cobalt_wren.Prelude.{
  ℕ, zero, suc, ◌*◌, ◌-◌, Bool, true, false, not, ◌&&◌, ◌||◌, Option, none, some, List, ltb,
  if◌then◌else◌,
}
use cobalt_wren.Prelude.Equality.{◌==◌, nat_eq, list_eq}
use cobalt_wren.Prelude.Int.{ℤ, pos, negsuc, int_eq}
use cobalt_wren.Prelude.Text.{Text}
use cobalt_wren.Core.Value.{
  Value, null, bool, int, float, str, bytes, bytearray, memoryview, list, tuple, dict, other, Items,
  nil, cons, Fields, end, field, Key, name, foreign, Float, nan, infinity, finite, fields_len,
}

-- A number: `ratio n k` is n / 2 ^ k, `infinite true` is below every other.
pub data Number : Type 0 where
  not_a_number : Number
  infinite : Bool → Number
  ratio : ℤ → ℕ → Number

-- n * m, for a natural m
abbrev pub scale : ℤ → ℕ → ℤ
scale (pos n) m = pos (n * m)
scale (negsuc n) zero = pos 0
scale (negsuc n) (suc m) = negsuc (suc n * suc m - 1)

abbrev pub float_number : Float → Number
float_number nan = not_a_number
float_number (infinity b) = infinite b
float_number (finite m (pos e)) = ratio (scale m (2 ^ e)) 0
float_number (finite m (negsuc e)) = ratio m (suc e)

-- `isinstance(value, (int, float))`: a `bool` is an `int`.
abbrev pub number_of : Value → Option Number
number_of (bool b) = some (ratio (pos (if b then 1 else 0)) 0)
number_of (int n) = some (ratio n 0)
number_of (float f) = some (float_number f)
number_of _ = none

abbrev pub int_lt : ℤ → ℤ → Bool
int_lt (pos m) (pos n) = ltb m n
int_lt (pos m) (negsuc n) = false
int_lt (negsuc m) (pos n) = true
int_lt (negsuc m) (negsuc n) = ltb n m

abbrev pub number_lt : Number → Number → Bool
number_lt not_a_number b = false
number_lt (infinite s) not_a_number = false
number_lt (infinite s) (infinite t) = s && not t
number_lt (infinite s) (ratio n k) = s
number_lt (ratio m j) not_a_number = false
number_lt (ratio m j) (infinite t) = not t
number_lt (ratio m j) (ratio n k) = int_lt (scale m (2 ^ k)) (scale n (2 ^ j))

abbrev pub number_beq : Number → Number → Bool
number_beq (infinite s) (infinite t) = if s then t else not t
number_beq (ratio m j) (ratio n k) = scale m (2 ^ k) == scale n (2 ^ j)
number_beq _ _ = false

-- Keys that are no texts are equal here if their texts are.
abbrev pub key_beq : Key → Key → Bool
key_beq (name s) (name t) = s == t
key_beq (foreign s) (foreign t) = s == t
key_beq (name s) (foreign t) = false
key_beq (foreign s) (name t) = false

-- `fields.get(key)`
abbrev pub find_field : Fields → Key → Option Value
find_field end k = none
find_field (field j v fs) k = if key_beq j k then some v else find_field fs k

abbrev pub field_named : Fields → Text → Option Value
field_named fs t = find_field fs (name t)

abbrev pub same_bytes : List ℕ → Value → Bool
same_bytes bs (bytes cs) = bs == cs
same_bytes bs (bytearray cs) = bs == cs
same_bytes bs (memoryview cs) = bs == cs
same_bytes bs _ = false

abbrev pub same_number : Number → Option Number → Bool
same_number a none = false
same_number a (some b) = number_beq a b

-- `a == b`. Mappings are equal in any order of their keys. Other objects are equal here if their
-- types and texts are.
unfoldable mutual
  pub value_beq : Value → Value → Bool
  value_beq null b = elim b [ null ↦ true | _ ↦ false ]
  value_beq (bool a) b = same_number (ratio (pos (if a then 1 else 0)) 0) (number_of b)
  value_beq (int a) b = same_number (ratio a 0) (number_of b)
  value_beq (float a) b = same_number (float_number a) (number_of b)
  value_beq (str a) b = elim b [ str t ↦ a == t | _ ↦ false ]
  value_beq (bytes a) b = same_bytes a b
  value_beq (bytearray a) b = same_bytes a b
  value_beq (memoryview a) b = same_bytes a b
  value_beq (list xs) b = elim b [ list ys ↦ items_beq xs ys | _ ↦ false ]
  value_beq (tuple xs) b = elim b [ tuple ys ↦ items_beq xs ys | _ ↦ false ]
  value_beq (dict fs) b = elim b [
    | dict gs ↦ (fields_len fs == fields_len gs) && fields_in fs gs
    | _ ↦ false
  ]
  value_beq (other type text) b = elim b [ other u t ↦ (type == u) && (text == t) | _ ↦ false ]

  pub items_beq : Items → Items → Bool
  items_beq nil ys = elim ys [ nil ↦ true | _ ↦ false ]
  items_beq (cons x xs) ys = elim ys [ nil ↦ false | cons y ys ↦ value_beq x y && items_beq xs ys ]

  pub fields_in : Fields → Fields → Bool
  fields_in end gs = true
  fields_in (field k v fs) gs =
      (elim (find_field gs k) [ none ↦ false | some w ↦ value_beq v w ]) && fields_in fs gs

-- `value in items`
abbrev pub in_items : Value → Items → Bool
in_items v nil = false
in_items v (cons w ws) = value_beq v w || in_items v ws
