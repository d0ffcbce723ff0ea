-- ===== src/Effect/Spares.antt =====
-- What a method keeps if it gives up, except for some errors.
use mathlib.Core.Path.{subst, ap}
use iscp.Prelude.{◌≡◌, refl, inl, inr, ◌⊎◌}
use iscp.Effect.{
  Outcome, stop, next, Effect, ◌>>=◌, ◌>>◌, continue, handled, on_error, update, finish,
}
use iscp.Effect.Keeps.{Keeps}

-- The method gives up only with such errors.
pub record Stops {S E A : Type 0} (Q : E → Type 0) (method : Effect S E A) : Type 0 where
  pub stops : (s : S) (e : E) → (method s).1 ≡ stop e → Q e

-- `P` survives if the method gives up, but for such errors.
pub record Spares {S E A : Type 0} (P : S → Type 0) (Q : E → Type 0) (method : Effect S E A)
    : Type 0 where
  pub spared : (s : S) → P s → (e : E) → (method s).1 ≡ stop e → P (method s).0 ⊎ Q e

module _ {S E A : Type 0} {Q : E → Type 0} where
  pub Stops-finish : (a : A) → Stops Q (finish {S = S} {E = E} a)
  unfolding finish
  Stops-finish a = record { stops = λ s e h. cc h }

module _ {S E : Type 0} {Q : E → Type 0} where
  pub Stops-update : (f : S → S) → Stops Q (update {S = S} {E = E} f)
  unfolding update
  Stops-update f = record { stops = λ s e h. cc h }

stop-eq : {E A : Type 0} (e f : E) (o : Outcome E A) → o ≡ stop e → o ≡ stop f → e ≡ f
stop-eq e f o g h = cc

handled-stops :
    {E F A : Type 0} (Q : F → Type 0) (handle : E → F) (o : Outcome E A) (f : F)
    → ((e : E) → Q (handle e))
    → handled handle o ≡ stop f
    → Q f
handled-stops {A = A} Q handle (stop e) f q h =
    subst Q (stop-eq {A = A} (handle e) f _ refl h) (q e)
handled-stops Q handle (next a) f q h = cc

module _ {S E F A : Type 0} {Q : F → Type 0} where
  pub Stops-on_error :
      (handle : E → F) (method : Effect S E A)
      → ((e : E) → Q (handle e))
      → Stops Q (on_error handle method)
  unfolding on_error
  Stops-on_error handle method q = record {
    stops = λ s f h. handled-stops Q handle (method s).1 f q h;
  }

module _ {S E A B : Type 0} {Q : E → Type 0} where
  continue-stops :
      (s : S) (o : Outcome E A) (rest : A → Effect S E B)
      → ((e : E) → o ≡ stop e → Q e)
      → ((a : A) → Stops Q (rest a))
      → (e : E) → (continue (s, o) rest).1 ≡ stop e
      → Q e
  continue-stops s (stop f) rest q k e h = q e (ap stop (stop-eq {A = B} f e _ refl h))
  continue-stops s (next a) rest q k e h = (k a).stops s e h

  pub Stops-bind :
      (method : Effect S E A) (rest : A → Effect S E B)
      → Stops Q method
      → ((a : A) → Stops Q (rest a))
      → Stops Q (method >>= rest)
  unfolding ◌>>=◌
  Stops-bind method rest k then' = record {
    stops = λ s. continue-stops (method s).0 (method s).1 rest (k.stops s) then';
  }

module _ {S E B : Type 0} {Q : E → Type 0} where
  pub Stops-then :
      (method : Effect S E (Unit {0})) (rest : Effect S E B)
      → Stops Q method
      → Stops Q rest
      → Stops Q (method >> rest)
  unfolding ◌>>◌
  Stops-then method rest k then' = Stops-bind method (λ done. rest) k (λ a. then')

module _ {S E A : Type 0} {P : S → Type 0} {Q : E → Type 0} where
  pub Keeps→Spares : (method : Effect S E A) → Keeps P method → Spares P Q method
  Keeps→Spares method k = record { spared = λ s p e h. inl (k.after s p) }

  pub Stops→Spares : (method : Effect S E A) → Stops Q method → Spares P Q method
  Stops→Spares method k = record { spared = λ s p e h. inr (k.stops s e h) }

module _ {S E A B : Type 0} {P : S → Type 0} {Q : E → Type 0} where
  continue-spared :
      (s : S) (o : Outcome E A) (rest : A → Effect S E B)
      → P s
      → ((a : A) → Spares P Q (rest a))
      → (e : E) → (continue (s, o) rest).1 ≡ stop e
      → P (continue (s, o) rest).0 ⊎ Q e
  continue-spared s (stop f) rest p k e h = inl p
  continue-spared s (next a) rest p k e h = (k a).spared s p e h

  pub Spares-bind :
      (method : Effect S E A) (rest : A → Effect S E B)
      → Keeps P method
      → ((a : A) → Spares P Q (rest a))
      → Spares P Q (method >>= rest)
  unfolding ◌>>=◌
  Spares-bind method rest k then' = record {
    spared = λ s p. continue-spared (method s).0 (method s).1 rest (k.after s p) then';
  }

module _ {S E B : Type 0} {P : S → Type 0} {Q : E → Type 0} where
  pub Spares-then :
      (method : Effect S E (Unit {0})) (rest : Effect S E B)
      → Keeps P method
      → Spares P Q rest
      → Spares P Q (method >> rest)
  unfolding ◌>>◌
  Spares-then method rest k then' = Spares-bind method (λ done. rest) k (λ a. then')
