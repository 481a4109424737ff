-- ===== src/Session/Outcome.antt =====
-- Computations that end with a value, however the server answers, after a bounded number of calls.
use mc_service.Prelude.{ℕ, ◌+◌, ◌≤◌, ◌≡◌, refl, sym, subst, arith, length}
use mc_service.Session.State.{Failure, Result, ok, raise, World, M, bind, return}

-- `r`, which started in `w`, ends with a value, in a world, that `P` holds of, after `n` calls at most.
pub record EndsIn {A : Type 0} (P : A → World → Type 0) (n : ℕ) (w : World) (r : Result A × World)
    : Type 0 where
  pub value : A
  pub ended : r.0 ≡ ok value
  pub holds : P value r.1
  pub calls : length r.1.sent ≤ length w.sent + n

pub return-EndsIn :
    {A : Type 0} (P : A → World → Type 0) (a : A) (w : World) → P a w → EndsIn P 0 w (return a w)
return-EndsIn P a w h = record { value = a; ended = refl; holds = h; calls = omega arith }

ok_injective : {A : Type 0} (a b : A) → ◌≡◌ {A = Result A} (ok a) (ok b) → a ≡ b
ok_injective a b e = cc

raise-ne-ok : {A : Type 0} (x : Failure) (a : A) → ◌≡◌ {A = Result A} (raise x) (ok a) → ⊥
raise-ne-ok x a e = cc

pub bind-EndsIn :
    {A B : Type 0} (P : A → World → Type 0) (Q : B → World → Type 0) (n m : ℕ) (w : World)
    (r : Result A × World) (f : A → M B)
    → EndsIn P n w r
    → ((a : A) (w' : World) → P a w' → EndsIn Q m w' (f a w'))
    → EndsIn Q (n + m) w (bind r f)
bind-EndsIn P Q n m w (ok a, w') f h k =
    let next = k a w' (subst (λ x. P x w') (sym (ok_injective a h.value h.ended)) h.holds) in
    record {
      value = next.value;
      ended = next.ended;
      holds = next.holds;
      calls = omega (arith, next.calls, h.calls);
    }
bind-EndsIn P Q n m w (raise e, w') f h k = absurd (raise-ne-ok e h.value h.ended)

pub EndsIn-weaken :
    {A : Type 0} (P Q : A → World → Type 0) (n m : ℕ) (w : World) (r : Result A × World)
    → ((a : A) (w' : World) → P a w' → Q a w')
    → n ≤ m
    → EndsIn P n w r
    → EndsIn Q m w r
EndsIn-weaken P Q n m w r f le h = record {
  value = h.value;
  ended = h.ended;
  holds = f h.value r.1 h.holds;
  calls = omega (arith, h.calls);
}
