-- ===== src/Core/Redaction.antt =====
-- core/redaction.py. The regular expressions are parameters.
pub mod Sensitive
pub mod Safety
use cobalt_wren.Prelude.{
  ℕ, suc, Bool, true, false, ◌||◌, Option, none, some, List, [], ◌∷◌, ◌++◌, leb, if◌then◌else◌, any,
}
use cobalt_wren.Prelude.Equality.{◌==◌, nat_eq, list_eq}
use cobalt_wren.Prelude.Int.{ℤ, pos}
use cobalt_wren.Prelude.Text.{Text, codes, lower, contains, has_char}
use cobalt_wren.Core.Value.{
  Value, null, bool, int, float, str, bytes, bytearray, memoryview, list, tuple, dict, other, Items,
  nil, cons, Fields, end, field, Key, name, key_text,
}

-- `sub` of each compiled pattern, with its replacement.
pub record Patterns : Type 0 where
  pub bearer_sub : Text → Text → Text
  pub unix_path_sub : Text → Text → Text
  pub windows_path_sub : Text → Text → Text
  pub home_path_sub : Text → Text → Text
  pub unc_path_sub : Text → Text → Text
  pub key_value_sub : (Text → Text) → Text → Text

abbrev pub redacted_value : Text
redacted_value = codes "***REDACTED***"

abbrev pub truncated_value : Text
truncated_value = codes "***TRUNCATED***"

abbrev pub sensitive_key_parts : List Text
sensitive_key_parts =
    codes "secret"
    ∷ codes "token"
    ∷ codes "api_key"
    ∷ codes "apikey"
    ∷ codes "password"
    ∷ codes "authorization"
    ∷ codes "access_token"
    ∷ codes "refresh_token"
    ∷ codes "credential"
    ∷ codes "credentials"
    ∷ codes "private_key"
    ∷ codes "path"
    ∷ codes "file_path"
    ∷ codes "absolute_path"
    ∷ []

unfoldable pub is_sensitive_key : Text → Bool
is_sensitive_key key = any (contains (lower key)) sensitive_key_parts

-- `text.split(ch, 1)[0]`
abbrev pub before : ℕ → Text → Text
before ch [] = []
before ch (c ∷ s) = let rest = before ch s in if c == ch then [] else c ∷ rest

-- `_replace`
abbrev pub replace_match : Text → Text
replace_match matched =
    (if has_char 58 matched
      then before 58 matched
      else if has_char 61 matched
      then before 61 matched
      else matched)
    ++ codes "="
    ++ redacted_value

unfoldable pub redact_text : Patterns → Text → Text
redact_text p text = p.key_value_sub replace_match (
    p.unc_path_sub redacted_value (
      p.home_path_sub redacted_value (
        p.windows_path_sub redacted_value (
          p.unix_path_sub redacted_value (p.bearer_sub (codes "Bearer " ++ redacted_value) text)))))

-- `redacted[key_name] = value`
unfoldable pub put_field : Fields → Text → Value → Fields
put_field end k v = field (name k) v end
put_field (field j w fs) k v =
    let rest = put_field fs k v in if key_text j == k then field j v fs else field j w rest

-- The values in place of a container that is too deep.
unfoldable pub truncated_fields : Fields → Fields → Fields
truncated_fields acc end = acc
truncated_fields acc (field k v fs) =
    truncated_fields (put_field acc (key_text k) (str truncated_value)) fs

unfoldable pub truncated_items : Items → Items
truncated_items nil = nil
truncated_items (cons v vs) = cons (str truncated_value) (truncated_items vs)

abbrev pub byte_items : List ℕ → Items
byte_items [] = nil
byte_items (b ∷ bs) = cons (int (pos b)) (byte_items bs)

unfoldable pub truncated : Value → Value
truncated (dict fs) = dict (truncated_fields end fs)
truncated (list vs) = list (truncated_items vs)
truncated (tuple vs) = list (truncated_items vs)
truncated (memoryview bs) = list (truncated_items (byte_items bs))
truncated _ = str truncated_value

module _ (p : Patterns) (max_depth : ℕ) where
  abbrev pub guarded : Option Text → ℕ → Value → Value → Value
  guarded key_name depth value redacted =
      if (elim key_name [ none ↦ false | some k ↦ is_sensitive_key k ])
      then str redacted_value
      else if leb max_depth depth
      then truncated value
      else redacted

  unfoldable mutual
    pub redact_value : Option Text → ℕ → Value → Value
    redact_value key depth (dict fs) =
        guarded key depth (dict fs) (dict (redact_fields depth end fs))
    redact_value key depth (list vs) = guarded key depth (list vs) (list (redact_items depth vs))
    redact_value key depth (tuple vs) = guarded key depth (tuple vs) (tuple (redact_items depth vs))
    redact_value key depth (memoryview bs) = guarded key depth (memoryview bs) (
        list (if leb max_depth (suc depth) then truncated_items (byte_items bs) else byte_items bs))
    redact_value key depth (str t) = guarded key depth (str t) (str (redact_text p t))
    redact_value key depth null = guarded key depth null null
    redact_value key depth (bool b) = guarded key depth (bool b) (bool b)
    redact_value key depth (int n) = guarded key depth (int n) (int n)
    redact_value key depth (float f) = guarded key depth (float f) (float f)
    redact_value key depth (bytes bs) = guarded key depth (bytes bs) (bytes bs)
    redact_value key depth (bytearray bs) = guarded key depth (bytearray bs) (bytearray bs)
    redact_value key depth (other type text) = guarded key depth (other type text) (other type text)

    -- `_redact_sequence`
    pub redact_items : ℕ → Items → Items
    redact_items depth nil = nil
    redact_items depth (cons v vs) = cons (redact_value none (suc depth) v) (redact_items depth vs)

    -- The loop of `_redact_mapping`, from the keys that are written.
    pub redact_fields : ℕ → Fields → Fields → Fields
    redact_fields depth acc end = acc
    redact_fields depth acc (field k v fs) =
        let redacted = redact_value (some (key_text k)) (suc depth) v in
        redact_fields depth
          (put_field acc (key_text k)
            (if is_sensitive_key (key_text k) then str redacted_value else redacted))
          fs

  -- `_redact_mapping` at depth 0
  unfoldable pub redact_mapping : Fields → Fields
  redact_mapping fs = if leb max_depth 0 then truncated_fields end fs else redact_fields 0 end fs
