-- ===== src/Effect/Keeps.antt =====
-- What a method keeps of the object it works on, by one rule for each way to build a method.
use iscp.Prelude.{◌≡◌, refl, Bool, true, false, if◌then◌else◌}
use iscp.Errors.{Error, Result, ok, err}
use iscp.Effect.{
  Outcome, stop, next, Effect, ◌>>=◌, ◌>>◌, continue, pure_call, finish, stop_with, stop_if, read,
  update, on_error, attempt, deferred,
}

-- `P` survives the method, however it ends.
pub record Keeps {S E A : Type 0} (P : S → Type 0) (method : Effect S E A) : Type 0 where
  pub after : (s : S) → P s → P (method s).0

module _ {S E A : Type 0} {P : S → Type 0} where
  pub Keeps-finish : (a : A) → Keeps P (finish {S = S} {E = E} a)
  unfolding finish
  Keeps-finish a = record { after = λ s p. p }

  pub Keeps-stop_with : (e : E) → Keeps P (stop_with {S = S} {E = E} {A = A} e)
  unfolding stop_with
  Keeps-stop_with e = record { after = λ s p. p }

  pub Keeps-read : (f : S → A) → Keeps P (read {S = S} {E = E} f)
  unfolding read
  Keeps-read f = record { after = λ s p. p }

  pub Keeps-if :
      (b : Bool) (yes' no' : Effect S E A)
      → Keeps P yes'
      → Keeps P no'
      → Keeps P (if b then yes' else no')
  Keeps-if true yes' no' y n = y
  Keeps-if false yes' no' y n = n

module _ {S E : Type 0} {P : S → Type 0} where
  pub Keeps-update : (f : S → S) → ((s : S) → P s → P (f s)) → Keeps P (update {S = S} {E = E} f)
  unfolding update
  Keeps-update f kept = record { after = kept }

  pub Keeps-stop_if : (b : Bool) (e : E) → Keeps P (stop_if {S = S} b e)
  unfolding stop_if
  Keeps-stop_if true e = record { after = λ s p. p }
  Keeps-stop_if false e = record { after = λ s p. p }

module _ {S E A : Type 0} {P : S → Type 0} where
  pub Keeps-deferred :
      (last : S → S) (method : Effect S E A)
      → ((s : S) → P s → P (last s))
      → Keeps P method
      → Keeps P (deferred last method)
  unfolding deferred
  Keeps-deferred last method kept k = record { after = λ s p. kept (method s).0 (k.after s p) }

module _ {S A : Type 0} {P : S → Type 0} where
  pub Keeps-pure_call : (result : Result A) → Keeps P (pure_call {S = S} result)
  unfolding pure_call
  Keeps-pure_call result = record { after = λ s p. p }

module _ {S E F A : Type 0} {P : S → Type 0} where
  pub Keeps-on_error :
      (handle : E → F) (method : Effect S E A) → Keeps P method → Keeps P (on_error handle method)
  unfolding on_error
  Keeps-on_error handle method k = record { after = λ s p. k.after s p }

  pub Keeps-attempt : (method : Effect S E A) → Keeps P method → Keeps P (attempt {F = F} method)
  unfolding attempt
  Keeps-attempt method k = record { after = λ s p. k.after s p }

module _ {S E A B : Type 0} {P : S → Type 0} where
  continue-kept :
      (s : S) (o : Outcome E A) (rest : A → Effect S E B)
      → P s
      → ((a : A) → Keeps P (rest a))
      → P (continue (s, o) rest).0
  continue-kept s (stop e) rest p k = p
  continue-kept s (next a) rest p k = (k a).after s p

  pub Keeps-bind :
      (method : Effect S E A) (rest : A → Effect S E B)
      → Keeps P method
      → ((a : A) → Keeps P (rest a))
      → Keeps P (method >>= rest)
  unfolding ◌>>=◌
  Keeps-bind method rest k then' = record {
    after = λ s p. continue-kept (method s).0 (method s).1 rest (k.after s p) then';
  }

module _ {S E B : Type 0} {P : S → Type 0} where
  pub Keeps-then :
      (method : Effect S E (Unit {0})) (rest : Effect S E B)
      → Keeps P method
      → Keeps P rest
      → Keeps P (method >> rest)
  unfolding ◌>>◌
  Keeps-then method rest k then' = Keeps-bind method (λ done. rest) k (λ a. then')

module _ {S F B : Type 0} {P : S → Type 0} where
  -- What comes after a check may use that the check has passed.
  pub Keeps-checked :
      (handle : Error → F) (result : Result (Unit {0})) (rest : Effect S F B)
      → (result ≡ ok tt → Keeps P rest)
      → Keeps P (on_error handle (pure_call result) >> rest)
  unfolding ◌>>◌ ◌>>=◌ on_error pure_call
  Keeps-checked handle (err e) rest k = record { after = λ s p. p }
  Keeps-checked handle (ok done) rest k = record { after = λ s p. (k refl).after s p }

pub ruleset keeps_rules = (
  Keeps-finish, Keeps-stop_with, Keeps-read, Keeps-if, Keeps-stop_if, Keeps-pure_call,
  Keeps-on_error, Keeps-attempt, Keeps-bind, Keeps-then,
)
