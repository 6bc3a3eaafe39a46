-- ===== src/Native/Policies.antt =====
-- native/policies.py: the retry policy of a step. The products and differences of Python's floats
-- are parameters.
pub mod Delays
use cobalt_wren.Prelude.{
  ℕ, zero, suc, ◌-◌, Bool, true, false, not, ◌&&◌, ◌||◌, Option, none, some, List, [], ◌∷◌, ◌++◌,
  any, if◌then◌else◌,
}
use cobalt_wren.Prelude.Equality.{◌==◌, nat_eq, list_eq}
use cobalt_wren.Prelude.Int.{ℤ, pos, negsuc}
use cobalt_wren.Prelude.Result.{Result, ok, err, guard, ◌>>◌}
use cobalt_wren.Prelude.Text.{Text, codes}
use cobalt_wren.Core.Compare.{Number, ratio, int_lt, number_lt, number_beq}

-- An exception: the names of the classes it is an instance of, its text, and the notes that were
-- added to it, each with the name of the step, the attempt and the number of attempts.
pub record Raised : Type 0 where
  pub mro : List Text
  pub message : Text
  pub notes : List (Text × ℕ × ℤ)

-- `isinstance(error, kinds)`
abbrev pub is_instance : Raised → List Text → Bool
is_instance error kinds = any (λ kind. any (λ name. name == kind) error.mro) kinds

-- An element of `retry_on`: an exception class by its name, or another object.
pub data Retryable : Type 0 where
  exception_type : Text → Retryable
  not_exception_type : Retryable

abbrev pub is_exception_type : Retryable → Bool
is_exception_type (exception_type name) = true
is_exception_type not_exception_type = false

abbrev pub class_names : List Retryable → List Text
class_names [] = []
class_names (exception_type name ∷ kinds) = name ∷ class_names kinds
class_names (not_exception_type ∷ kinds) = class_names kinds

pub record RetryPolicy : Type 0 where
  pub max_attempts : ℤ
  pub retry_on : List Retryable
  pub initial_delay_seconds : Number
  pub backoff_multiplier : Number
  pub max_delay_seconds : Number

-- What `__post_init__` raises.
pub data PolicyError : Type 0 where
  max_attempts_below_one retry_on_empty retry_on_not_exceptions : PolicyError
  initial_delay_negative multiplier_below_one max_delay_negative : PolicyError

abbrev pub is_empty {ℓ} : {A : Type ℓ} → List A → Bool
is_empty [] = true
is_empty (x ∷ xs) = false

abbrev pub nothing : Number
nothing = ratio (pos 0) 0

abbrev pub whole_one : Number
whole_one = ratio (pos 1) 0

-- `RetryPolicy.__post_init__`
unfoldable pub check_policy : RetryPolicy → Result PolicyError (Unit {0})
check_policy policy =
    guard (not (int_lt policy.max_attempts (pos 1))) max_attempts_below_one
    >> (guard (not (is_empty policy.retry_on)) retry_on_empty
        >> (guard (not (any (λ kind. not (is_exception_type kind)) policy.retry_on))
              retry_on_not_exceptions
            >> (guard (not (number_lt policy.initial_delay_seconds nothing)) initial_delay_negative
                >> (guard (not (number_lt policy.backoff_multiplier whole_one)) multiplier_below_one
                    >> guard (not (number_lt policy.max_delay_seconds nothing))
                        max_delay_negative))))

-- Python's arithmetic on floats: `a - b`, and `a * b ** n`, which may raise OverflowError.
pub record Arithmetic : Type 0 where
  pub minus : Number → Number → Number
  pub scaled : Number → Number → ℕ → Option Number

-- `min(a, b)` is the first of its least arguments.
abbrev pub number_min : Number → Number → Number
number_min a b = if number_lt b a then b else a

unfoldable pub should_retry : RetryPolicy → Raised → ℕ → Bool
should_retry policy error attempt =
    int_lt (pos attempt) policy.max_attempts && is_instance error (class_names policy.retry_on)

abbrev pub capped : Option Number → Number → Option Number
capped none limit = none
capped (some delay) limit = some (number_min delay limit)

-- None where the product overflows.
unfoldable pub delay_after : Arithmetic → RetryPolicy → ℕ → Option Number
delay_after arithmetic policy attempt =
    if number_beq policy.initial_delay_seconds nothing
    then some nothing
    else capped
        (arithmetic.scaled policy.initial_delay_seconds policy.backoff_multiplier (attempt - 1))
        policy.max_delay_seconds

abbrev pub no_retry : RetryPolicy
no_retry = record {
  max_attempts = pos 1;
  retry_on = exception_type (codes "Exception") ∷ [];
  initial_delay_seconds = nothing;
  backoff_multiplier = ratio (pos 2) 0;
  max_delay_seconds = ratio (pos 60) 0;
}
