-- ===== src/Prelude/Action/Triple.antt =====
-- What holds after a call, by what held before it: a postcondition is of the outcome and the
-- state, since a call that raises leaves its writes.
use mathlib.Core.Bool.{Bool, true, false}
use cobalt_wren.Prelude.Tests.{if◌then◌else◌}
use cobalt_wren.Prelude.Result.{Result, ok, err}
use cobalt_wren.Prelude.Action.{Action, continue, ◌>>=◌}

pub record Triple (S E A : Type 0) (P : S → Type 0) (m : Action S E A) (Q : Result E A → S → Type 0)
    : Type 0 where
  pub after : (s : S) → P s → Q (m s).0 (m s).1

module _ {S E : Type 0} where
  -- Postconditions that meet at the result of the first of two calls.
  pub Triple->>= :
      {A B : Type 0} {P : S → Type 0} {Q : Result E B → S → Type 0} {f : A → Action S E B}
      (m : Action S E A) (M : Result E A → S → Type 0)
      → Triple S E A P m M
      → ((e : E) (s : S) → M (err e) s → Q (err e) s)
      → ((a : A) → Triple S E B (M (ok a)) (f a) Q)
      → Triple S E B P (m >>= f) Q
  Triple->>= {Q} {f} m M h raised next = record {
    after = λ s p. by_result (m s).0 (m s).1 (h.after s p);
  }
    where
      by_result : (r : Result E _) (t : S) → M r t → Q (continue r f t).0 (continue r f t).1
      by_result (ok a) t k = (next a).after t k
      by_result (err e) t k = raised e t k

  pub Triple-if :
      {A : Type 0} {P : S → Type 0} {Q : Result E A → S → Type 0} {m n : Action S E A} (b : Bool)
      → Triple S E A P m Q
      → Triple S E A P n Q
      → Triple S E A P (if b then m else n) Q
  Triple-if true h k = h
  Triple-if false h k = k

  -- A call that keeps a property of the state whatever its outcome.
  abbrev pub Keeps : {A : Type 0} → (S → Type 0) → Action S E A → Type 0
  Keeps {A} P m = Triple S E A P m (λ r s. P s)

  pub Keeps->>= :
      {A B : Type 0} {P : S → Type 0} {f : A → Action S E B} (m : Action S E A)
      → Keeps P m
      → ((a : A) → Keeps P (f a))
      → Keeps P (m >>= f)
  Keeps->>= {P} m h next = Triple->>= m (λ r s. P s) h (λ e s p. p) next

  -- A call that leaves the part of the state that the property is of.
  pub Keeps-all :
      {A : Type 0} {P : S → Type 0} {m : Action S E A} → ((s : S) → P s → P (m s).1) → Keeps P m
  Keeps-all h = record { after = h }
