-- ===== src/Effect/Leads.antt =====
-- What holds of the object after a method that did not give up.
use iscp.Prelude.{◌≡◌, refl}
use iscp.Errors.{Error, Result, ok}
use iscp.Effect.{
  bind-next, read, pure_call, Outcome, stop, next, Effect, ◌>>=◌, ◌>>◌, continue, on_error,
  on_error-next, update,
}
use iscp.Effect.Keeps.{Keeps}

-- From `P`, the method reaches `Q` with any value that it ends with.
pub record Leads {S E A : Type 0} (P Q : S → Type 0) (method : Effect S E A) : Type 0 where
  pub to : (s : S) → P s → (a : A) → (method s).1 ≡ next a → Q (method s).0

module _ {S E A B : Type 0} {R : S → Type 0} where
  continue-leads :
      (Q : S → Type 0) (s : S) (o : Outcome E A) (rest : A → Effect S E B)
      → ((a : A) → o ≡ next a → Q s)
      → ((a : A) → Leads Q R (rest a))
      → (b : B) → (continue (s, o) rest).1 ≡ next b
      → R (continue (s, o) rest).0
  continue-leads Q s (stop e) rest q k b h = cc
  continue-leads Q s (next a) rest q k b h = (k a).to s (q a refl) b h

module _ {S E A B : Type 0} {P Q R : S → Type 0} where
  pub Leads-bind :
      (method : Effect S E A) (rest : A → Effect S E B)
      → Leads P Q method
      → ((a : A) → Leads Q R (rest a))
      → Leads P R (method >>= rest)
  unfolding ◌>>=◌
  Leads-bind method rest k then' = record {
    to = λ s p b h. continue-leads Q (method s).0 (method s).1 rest (k.to s p) then' b h;
  }

module _ {S E B : Type 0} {P Q R : S → Type 0} where
  pub Leads-then :
      (method : Effect S E (Unit {0})) (rest : Effect S E B)
      → Leads P Q method
      → Leads Q R rest
      → Leads P R (method >> rest)
  unfolding ◌>>◌
  Leads-then method rest k then' = Leads-bind method (λ done. rest) k (λ a. then')

module _ {S E A : Type 0} {P : S → Type 0} where
  pub Keeps→Leads : (method : Effect S E A) → Keeps P method → Leads P P method
  Keeps→Leads method k = record { to = λ s p a h. k.after s p }

module _ {S E F A : Type 0} {P Q : S → Type 0} where
  pub Leads-on_error :
      (handle : E → F) (method : Effect S E A)
      → Leads P Q method
      → Leads P Q (on_error handle method)
  unfolding on_error
  Leads-on_error handle method k = record {
    to = λ s p a h. k.to s p a (on_error-next handle method s a h);
  }

module _ {S E : Type 0} {P Q : S → Type 0} where
  pub Leads-update : (f : S → S) → ((s : S) → P s → Q (f s)) → Leads P Q (update {S = S} {E = E} f)
  unfolding update
  Leads-update f k = record { to = λ s p a h. k s p }

module _ {S F A B : Type 0} {P Q : S → Type 0} where
  -- Where the value of a pure call is known.
  pub Leads-known :
      (handle : Error → F) (result : Result A) (rest : A → Effect S F B) (a : A)
      → result ≡ ok a
      → Leads P Q (rest a)
      → Leads P Q (on_error handle (pure_call result) >>= rest)
  unfolding on_error pure_call
  Leads-known handle result rest a e k = record {
    to = λ s p b h.
        let same = bind-next (on_error handle (pure_call result)) rest s s a (rw e refl) in
        rw same (k.to s p b (rw same at h));
  }

module _ {S E A B : Type 0} {P Q : S → Type 0} where
  -- Where the value that is read follows from what holds.
  pub Leads-read :
      (f : S → A) (rest : A → Effect S E B) (a : A)
      → ((s : S) → P s → f s ≡ a)
      → Leads P Q (rest a)
      → Leads P Q (read f >>= rest)
  unfolding read
  Leads-read f rest a known k = record {
    to = λ s p b h.
        let same = bind-next (read f) rest s s a (rw (known s p) refl) in
        rw same (k.to s p b (rw same at h));
  }
