-- ===== src/Effect.antt =====
-- The Go code's way to work: a method changes a shared object and answers with a value, or gives up
-- with an error. The object comes first, the answer second.
pub mod Keeps
pub mod Leads
pub mod Refusals
pub mod Spares
use iscp.Prelude.{◌≡◌, refl, Bool, true, false}
use iscp.Errors.{Error, Result, ok, err}

-- How a method ends: early, with an error or a finished response, or with a value.
pub data Outcome (E A : Type 0) : Type 0 where
  stop : E → Outcome E A
  next : A → Outcome E A

abbrev pub Effect : Type 0 → Type 0 → Type 0 → Type 0
Effect S E A = S → S × Outcome E A

abbrev pub continue : {S E A B : Type 0} → S × Outcome E A → (A → Effect S E B) → S × Outcome E B
continue (s, stop e) rest = (s, stop e)
continue (s, next a) rest = rest a s

infixl 5 ◌>>=◌ ◌>>◌
unfoldable pub ◌>>=◌ : {S E A B : Type 0} → Effect S E A → (A → Effect S E B) → Effect S E B
◌>>=◌ method rest s = continue (method s) rest

unfoldable pub ◌>>◌ : {S E B : Type 0} → Effect S E (Unit {0}) → Effect S E B → Effect S E B
unfolding ◌>>=◌
method >> rest = method >>= λ done. rest

-- A function that has no state: `return value, err`.
abbrev pub of_result : {E A : Type 0} → Result A → (Error → E) → Outcome E A
of_result (err e) handle = stop (handle e)
of_result (ok a) handle = next a

unfoldable pub pure_call : {S A : Type 0} → Result A → Effect S Error A
pure_call result s = (s, of_result result (λ e. e))

unfoldable pub finish : {S E A : Type 0} → A → Effect S E A
finish a s = (s, next a)

unfoldable pub stop_with : {S E A : Type 0} → E → Effect S E A
stop_with e s = (s, stop e)

-- if b { return e }
unfoldable pub stop_if : {S E : Type 0} → Bool → E → Effect S E (Unit {0})
stop_if true e s = (s, stop e)
stop_if false e s = (s, next tt)

unfoldable pub read : {S E A : Type 0} → (S → A) → Effect S E A
read f s = (s, next (f s))

unfoldable pub update : {S E : Type 0} → (S → S) → Effect S E (Unit {0})
update f s = (f s, next tt)

abbrev pub handled : {E F A : Type 0} → (E → F) → Outcome E A → Outcome F A
handled handle (stop e) = stop (handle e)
handled handle (next a) = next a

-- if err := method(); err != nil { return handle(err) }
unfoldable pub on_error : {S E F A : Type 0} → (E → F) → Effect S E A → Effect S F A
on_error handle method s = let (s', outcome) = method s in (s', handled handle outcome)

-- The error as a value, for a caller that goes on.
unfoldable pub attempt : {S E F A : Type 0} → Effect S E A → Effect S F (Outcome E A)
attempt method s = let (s', outcome) = method s in (s', next outcome)

-- defer last(): it runs at the end, however the method ends.
unfoldable pub deferred : {S E A : Type 0} → (S → S) → Effect S E A → Effect S E A
deferred last method s = let (s', outcome) = method s in (last s', outcome)

-- A block by the outcome of its first method.
module _ {S E A B : Type 0} where
  pub bind-next :
      (method : Effect S E A) (rest : A → Effect S E B) (s s' : S) (a : A)
      → method s ≡ (s', next a)
      → (method >>= rest) s ≡ rest a s'
  unfolding ◌>>=◌
  bind-next method rest s s' a e = rw e refl

  pub bind-stop :
      (method : Effect S E A) (rest : A → Effect S E B) (s s' : S) (failure : E)
      → method s ≡ (s', stop failure)
      → (method >>= rest) s ≡ (s', stop failure)
  unfolding ◌>>=◌
  bind-stop method rest s s' failure e = rw e refl

module _ {S E B : Type 0} where
  pub then-next :
      (method : Effect S E (Unit {0})) (rest : Effect S E B) (s s' : S)
      → method s ≡ (s', next tt)
      → (method >> rest) s ≡ rest s'
  unfolding ◌>>◌
  then-next method rest s s' e = bind-next method (λ done. rest) s s' tt e

  pub then-stop :
      (method : Effect S E (Unit {0})) (rest : Effect S E B) (s s' : S) (failure : E)
      → method s ≡ (s', stop failure)
      → (method >> rest) s ≡ (s', stop failure)
  unfolding ◌>>◌
  then-stop method rest s s' failure e = bind-stop method (λ done. rest) s s' failure e

  pub stop_if-next :
      (b : Bool) (failure : E) (rest : Effect S E B) (s : S)
      → b ≡ false
      → (stop_if b failure >> rest) s ≡ rest s
  unfolding stop_if
  stop_if-next b failure rest s e = then-next (stop_if b failure) rest s s (rw e refl)

  pub stop_if-stop :
      (b : Bool) (failure : E) (rest : Effect S E B) (s : S)
      → b ≡ true
      → (stop_if b failure >> rest) s ≡ (s, stop failure)
  unfolding stop_if
  stop_if-stop b failure rest s e = then-stop (stop_if b failure) rest s s failure (rw e refl)

-- What a block that ends with a value tells of its first method.
module _ {S E A B : Type 0} where
  continue-inv :
      (s : S) (o : Outcome E A) (rest : A → Effect S E B) (b : B)
      → (continue (s, o) rest).1 ≡ next b
      → (a : A) × (o ≡ next a) × ((rest a s).1 ≡ next b)
  continue-inv s (stop e) rest b h = cc
  continue-inv s (next a) rest b h = (a, refl, h)

  pub bind-inv :
      (method : Effect S E A) (rest : A → Effect S E B) (s : S) (b : B)
      → ((method >>= rest) s).1 ≡ next b
      → (a : A) × ((method s).1 ≡ next a) × ((rest a (method s).0).1 ≡ next b)
  unfolding ◌>>=◌
  bind-inv method rest s b h = continue-inv (method s).0 (method s).1 rest b h

handled-inv :
    {E F A : Type 0} (handle : E → F) (r : Result A) (read_error : Error → E) (a : A)
    → handled handle (of_result r read_error) ≡ next a
    → r ≡ ok a
handled-inv handle (err e) read_error a h = cc
handled-inv handle (ok b) read_error a h = cc

module _ {S F A B : Type 0} where
  -- The value is that of the pure call, and the object is as before.
  pub pure_call-inv :
      (handle : Error → F) (result : Result A) (rest : A → Effect S F B) (s : S) (b : B)
      → ((on_error handle (pure_call result) >>= rest) s).1 ≡ next b
      → (a : A) × (result ≡ ok a) × ((rest a s).1 ≡ next b)
  unfolding on_error pure_call
  pure_call-inv handle result rest s b h =
      let (a, got, went) = bind-inv (on_error handle (pure_call result)) rest s b h in
      (a, handled-inv handle result (λ e. e) a got, went)

module _ {S E B : Type 0} where
  pub then-inv :
      (method : Effect S E (Unit {0})) (rest : Effect S E B) (s : S) (b : B)
      → ((method >> rest) s).1 ≡ next b
      → ((method s).1 ≡ next tt) × ((rest (method s).0).1 ≡ next b)
  unfolding ◌>>◌
  then-inv method rest s b h =
      let (a, got, went) = bind-inv method (λ done. rest) s b h in (got, went)

  pub stop_if-inv :
      (test : Bool) (failure : E) (rest : Effect S E B) (s : S) (b : B)
      → ((stop_if test failure >> rest) s).1 ≡ next b
      → (test ≡ false) × ((rest s).1 ≡ next b)
  unfolding stop_if
  stop_if-inv true failure rest s b h = cc (then-inv (stop_if true failure) rest s b h).0
  stop_if-inv false failure rest s b h = (refl, (then-inv (stop_if false failure) rest s b h).1)

  pub checked-inv :
      (handle : Error → E) (result : Result (Unit {0})) (rest : Effect S E B) (s : S) (b : B)
      → ((on_error handle (pure_call result) >> rest) s).1 ≡ next b
      → (result ≡ ok tt) × ((rest s).1 ≡ next b)
  unfolding ◌>>◌
  checked-inv handle result rest s b h =
      let (a, got, went) = pure_call-inv handle result (λ done. rest) s b h in (got, went)

handled-next :
    {E F A : Type 0} (handle : E → F) (o : Outcome E A) (a : A)
    → handled handle o ≡ next a
    → o ≡ next a
handled-next handle (stop e) a h = cc
handled-next handle (next b) a h = cc

module _ {S E F A : Type 0} where
  pub on_error-next :
      (handle : E → F) (method : Effect S E A) (s : S) (a : A)
      → (on_error handle method s).1 ≡ next a
      → (method s).1 ≡ next a
  unfolding on_error
  on_error-next handle method s a h = handled-next handle (method s).1 a h
