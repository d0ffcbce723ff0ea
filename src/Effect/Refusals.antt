-- ===== src/Effect/Refusals.antt =====
-- What a method that gives up leaves as it was.
use iscp.Prelude.{◌≡◌, refl}
use iscp.Effect.{
  Outcome, stop, next, Effect, ◌>>=◌, ◌>>◌, continue, handled, on_error, update, finish,
}
use iscp.Effect.Keeps.{Keeps}

-- `P` survives if the method ends early.
pub record OnRefusal {S E A : Type 0} (P : S → Type 0) (method : Effect S E A) : Type 0 where
  pub left : (s : S) → P s → (e : E) → (method s).1 ≡ stop e → P (method s).0

-- The method does not end early.
pub record Always {S E A : Type 0} (method : Effect S E A) : Type 0 where
  pub ends : (s : S) (e : E) → ¬ ((method s).1 ≡ stop e)

module _ {S E A : Type 0} where
  pub Always-finish : (a : A) → Always (finish {S = S} {E = E} a)
  unfolding finish
  Always-finish a = record { ends = λ s e h. cc h }

module _ {S E : Type 0} where
  pub Always-update : (f : S → S) → Always (update {S = S} {E = E} f)
  unfolding update
  Always-update f = record { ends = λ s e h. cc h }

module _ {S E B : Type 0} where
  continue-ends :
      {A : Type 0} (s : S) (o : Outcome E A) (rest : A → Effect S E B)
      → ((e : E) → ¬ (o ≡ stop e))
      → ((a : A) → Always (rest a))
      → (e : E) → ¬ ((continue (s, o) rest).1 ≡ stop e)
  continue-ends s (stop f) rest n k e h = n f refl
  continue-ends s (next a) rest n k e h = (k a).ends s e h

  pub Always-then :
      (method : Effect S E (Unit {0})) (rest : Effect S E B)
      → Always method
      → Always rest
      → Always (method >> rest)
  unfolding ◌>>◌ ◌>>=◌
  Always-then method rest k then' = record {
    ends = λ s. continue-ends (method s).0 (method s).1 (λ done. rest) (k.ends s) (λ a. then');
  }

module _ {S E A B : Type 0} {P : S → Type 0} where
  continue-left :
      (s : S) (o : Outcome E A) (rest : A → Effect S E B)
      → ((e : E) → o ≡ stop e → P s)
      → ((a : A) → o ≡ next a → OnRefusal P (rest a) × P s)
      → (e : E) → (continue (s, o) rest).1 ≡ stop e
      → P (continue (s, o) rest).0
  continue-left s (stop f) rest p k e h = p f refl
  continue-left s (next a) rest p k e h = (k a refl).0.left s (k a refl).1 e h

module _ {S E A B : Type 0} where
  continue-last :
      (P : S → Type 0) (s : S) (o : Outcome E A) (rest : A → Effect S E B)
      → ((e : E) → o ≡ stop e → P s)
      → ((a : A) → Always (rest a))
      → (e : E) → (continue (s, o) rest).1 ≡ stop e
      → P (continue (s, o) rest).0
  continue-last P s (stop f) rest p k e h = p f refl
  continue-last P s (next a) rest p k e h = absurd ((k a).ends s e h)

module _ {S E A B : Type 0} {P : S → Type 0} where
  pub OnRefusal-bind :
      (method : Effect S E A) (rest : A → Effect S E B)
      → Keeps P method
      → ((a : A) → OnRefusal P (rest a))
      → OnRefusal P (method >>= rest)
  unfolding ◌>>=◌
  OnRefusal-bind method rest k then' = record {
    left = λ s p.
        continue-left (method s).0 (method s).1 rest (λ e h. k.after s p)
          (λ a h. (then' a, k.after s p));
  }

  -- The last method that may end early.
  pub OnRefusal-last :
      (method : Effect S E A) (rest : A → Effect S E B)
      → OnRefusal P method
      → ((a : A) → Always (rest a))
      → OnRefusal P (method >>= rest)
  unfolding ◌>>=◌
  OnRefusal-last method rest k then' = record {
    left = λ s p. continue-last P (method s).0 (method s).1 rest (k.left s p) then';
  }

module _ {S E B : Type 0} {P : S → Type 0} where
  pub OnRefusal-then :
      (method : Effect S E (Unit {0})) (rest : Effect S E B)
      → Keeps P method
      → OnRefusal P rest
      → OnRefusal P (method >> rest)
  unfolding ◌>>◌
  OnRefusal-then method rest k then' = OnRefusal-bind method (λ done. rest) k (λ a. then')

module _ {S E A : Type 0} {P : S → Type 0} where
  pub Keeps→OnRefusal : (method : Effect S E A) → Keeps P method → OnRefusal P method
  Keeps→OnRefusal method k = record { left = λ s p e h. k.after s p }

  pub Always→OnRefusal : (method : Effect S E A) → Always method → OnRefusal P method
  Always→OnRefusal method k = record { left = λ s p e h. absurd (k.ends s e h) }

handled-stop :
    {E F A : Type 0} (handle : E → F) (o : Outcome E A) (f : F)
    → handled handle o ≡ stop f
    → (e : E) × (o ≡ stop e)
handled-stop handle (stop e) f h = (e, refl)
handled-stop handle (next b) f h = cc h

module _ {S E F A : Type 0} {P : S → Type 0} where
  pub OnRefusal-on_error :
      (handle : E → F) (method : Effect S E A)
      → OnRefusal P method
      → OnRefusal P (on_error handle method)
  unfolding on_error
  OnRefusal-on_error handle method k = record {
    left =
        λ s p f h. let (e, stopped) = handled-stop handle (method s).1 f h in k.left s p e stopped;
  }
