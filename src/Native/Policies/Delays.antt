-- ===== src/Native/Policies/Delays.antt =====
-- The delays of a validated policy, native/policies.py.
use Prim.Native.Nat.{◌^◌}
use cobalt_wren.Prelude.{
  ℕ, ◌-◌, Bool, true, false, not, Option, none, some, if◌then◌else◌, any, ◌≡◌, refl, sym, arith,
}
use cobalt_wren.Prelude.Int.{ℤ, pos, negsuc}
use cobalt_wren.Prelude.Result.{ok, guard, on_ok}
use cobalt_wren.Core.Compare.{
  Number, not_a_number, infinite, ratio, int_lt, number_lt, number_beq, scale,
}
use cobalt_wren.Native.Policies.{
  RetryPolicy, PolicyError, Arithmetic, nothing, whole_one, number_min, capped, check_policy,
  delay_after, is_empty, is_exception_type, max_attempts_below_one, retry_on_empty,
  retry_on_not_exceptions, initial_delay_negative, multiplier_below_one, max_delay_negative,
}

int_lt_irreflexive : (n : ℤ) → int_lt n n ≡ false
int_lt_irreflexive (pos n) = ground arith
int_lt_irreflexive (negsuc n) = ground arith

number_lt_irreflexive : (a : Number) → number_lt a a ≡ false
number_lt_irreflexive not_a_number = refl
number_lt_irreflexive (infinite true) = refl
number_lt_irreflexive (infinite false) = refl
number_lt_irreflexive (ratio n k) = int_lt_irreflexive (scale n (2 ^ k))

-- The lesser of two numbers is not above the second.
number_min-bound : (a b : Number) → number_lt b (number_min a b) ≡ false
number_min-bound a b = by_order (number_lt b a) refl
  where
    by_order : (t : Bool) → number_lt b a ≡ t → number_lt b (if t then b else a) ≡ false
    by_order true e = number_lt_irreflexive b
    by_order false e = e

guard_passed : (e : PolicyError) (b : Bool) (u : Unit {0}) → guard b e ≡ ok u → b ≡ true
guard_passed e true u h = refl
guard_passed e false u h = absurd (ground (arith, h))

-- A validated policy has no negative limit of its delays.
limit_not_negative :
    (policy : RetryPolicy)
    → check_policy policy ≡ ok tt
    → number_lt policy.max_delay_seconds nothing ≡ false
unfolding check_policy
limit_not_negative policy h =
    on_ok (guard (not (int_lt policy.max_attempts (pos 1))) max_attempts_below_one) _ h λ _ _ h1.
      on_ok (guard (not (is_empty policy.retry_on)) retry_on_empty) _ h1 λ _ _ h2.
        on_ok
          (guard (not (any (λ kind. not (is_exception_type kind)) policy.retry_on))
            retry_on_not_exceptions)
          _ h2
          λ _ _ h3.
            on_ok
              (guard (not (number_lt policy.initial_delay_seconds nothing)) initial_delay_negative)
              _ h3
              λ _ _ h4.
                on_ok
                  (guard (not (number_lt policy.backoff_multiplier whole_one)) multiplier_below_one)
                  _ h4
                  λ _ _ h5. flip_not (number_lt policy.max_delay_seconds nothing) (
                    guard_passed max_delay_negative
                      (not (number_lt policy.max_delay_seconds nothing)) tt h5)
  where
    flip_not : (b : Bool) → not b ≡ true → b ≡ false
    flip_not true k = sym k
    flip_not false k = refl

-- A delay of a validated policy is not above the policy's limit, whatever the products of floats
-- are.
delay_after-bound :
    (arithmetic : Arithmetic) (policy : RetryPolicy) (attempt : ℕ) (delay : Number)
    → check_policy policy ≡ ok tt
    → delay_after arithmetic policy attempt ≡ some delay
    → number_lt policy.max_delay_seconds delay ≡ false
unfolding delay_after
delay_after-bound arithmetic policy attempt delay valid h =
    by_initial (number_beq policy.initial_delay_seconds nothing)
      (arithmetic.scaled policy.initial_delay_seconds policy.backoff_multiplier (attempt - 1)) h
  where
    by_initial :
        (b : Bool) (o : Option Number)
        → (if b then some nothing else capped o policy.max_delay_seconds) ≡ some delay
        → number_lt policy.max_delay_seconds delay ≡ false
    by_initial true o e = rw (← is_nothing e) (limit_not_negative policy valid)
      where
        is_nothing : some nothing ≡ some delay → nothing ≡ delay
        is_nothing e = cc
    by_initial false none e = absurd (ground (arith, e))
    by_initial false (some d) e = rw (← is_least e) (number_min-bound d policy.max_delay_seconds)
      where
        is_least :
            some (number_min d policy.max_delay_seconds) ≡ some delay
            → number_min d policy.max_delay_seconds ≡ delay
        is_least e = cc
