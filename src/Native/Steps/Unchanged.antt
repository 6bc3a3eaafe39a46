-- ===== src/Native/Steps/Unchanged.antt =====
-- Tests of cancellation and delays leave the context of the steps of native/__init__.py.
use cobalt_wren.Prelude.{ℕ, zero, suc, Option, none, some, any, leb, length}
use cobalt_wren.Prelude.Action.{gets, modify}
use cobalt_wren.Prelude.Action.Triple.{Triple-if, Keeps, Keeps->>=, Keeps-all}
use cobalt_wren.Prelude.Equality.{◌==◌, nat_eq, list_eq}
use cobalt_wren.Prelude.Result.{Result, ok, err}
use cobalt_wren.Prelude.Text.{Text, codes}
use cobalt_wren.Core.Compare.{Number, number_lt}
use cobalt_wren.Core.Value.{Value}
use cobalt_wren.Native.Policies.{Raised, nothing, number_min}
use cobalt_wren.Native.Names.{required_name, occurrence_identity}
use cobalt_wren.Native.Steps.{
  StepError, Environment, Context, caught, passed_on, check_cancelled, retry_delay, delayed,
  admitted, check_control, slice, as_name, checked_timeout, from_result, max_step_occurrences,
}

module _ {S : Type 0} (env : Environment S) where
  -- A property of the context alone.
  module _ (P : Context → Type 0) where
    pub check_cancelled-Keeps : Keeps (λ s. P s.0) (check_cancelled env)
    unfolding check_cancelled
    check_cancelled-Keeps =
        Keeps->>= (caught (check_control env.control)) (Keeps-all λ s h. h) (λ r. by_result r)
      where
        by_result :
            (r : Result Raised (Unit {0}))
            → Keeps {S = Context × S} {E = StepError} (λ s. P s.0) (passed_on r)
        by_result (ok u) = Keeps-all λ s h. h
        by_result (err e) = Keeps-all λ s h. h

    pub retry_delay-Keeps :
        (slices : ℕ) (remaining : Number) → Keeps (λ s. P s.0) (retry_delay env slices remaining)
    unfolding retry_delay
    retry_delay-Keeps zero remaining =
        Triple-if (number_lt nothing remaining) (Keeps-all λ s h. h) check_cancelled-Keeps
    retry_delay-Keeps (suc slices) remaining =
        Triple-if (number_lt nothing remaining)
          (Keeps->>= (check_cancelled env) check_cancelled-Keeps (λ u.
            Keeps->>= (modify λ s. (s.0, env.sleep (number_min remaining slice) s.1))
              (Keeps-all λ s h. h)
              (λ v.
                retry_delay-Keeps slices
                  (env.arithmetic.minus remaining (number_min remaining slice)))))
          check_cancelled-Keeps

    pub delayed-Keeps : (slices : ℕ) (o : Option Number) → Keeps (λ s. P s.0) (delayed env slices o)
    delayed-Keeps slices none = Keeps-all λ s h. h
    delayed-Keeps slices (some delay) = retry_delay-Keeps slices delay

    pub from_result-Keeps :
        {A : Type 0} (r : Result StepError A) → Keeps {S = Context × S} (λ s. P s.0) (from_result r)
    from_result-Keeps (ok a) = Keeps-all λ s h. h
    from_result-Keeps (err e) = Keeps-all λ s h. h

    pub admitted-Keeps :
        (name : Text) (timeout : Option Value) (occurrence_key : Option Text)
        → Keeps (λ s. P s.0) (admitted env name timeout occurrence_key)
    admitted-Keeps name timeout occurrence_key =
        Keeps->>= (from_result (as_name (required_name name (codes "step name"))))
          (from_result-Keeps _)
          (λ step_name.
            Keeps->>= (from_result (as_name (occurrence_identity step_name occurrence_key)))
              (from_result-Keeps _)
              (λ subject. Keeps->>= (gets λ s. s.0.subjects) (Keeps-all λ s h. h) (λ subjects.
                Triple-if (any (λ used. used == subject) subjects) (Keeps-all λ s h. h) (
                  Triple-if (leb max_step_occurrences (length subjects)) (Keeps-all λ s h. h) (
                    Keeps->>= (from_result (checked_timeout timeout)) (from_result-Keeps _)
                      (λ seconds. Keeps-all λ s h. h))))))
