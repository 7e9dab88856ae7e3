-- ===== src/Common/Runs.antt =====
-- Actions of the program: they change a state `S`, and return a value or throw an error with its
-- message. What was changed before a throw stays changed.
use Prim.Native.String.{String}
use mathlib.Core.Path.{◌≡◌, refl}
use mathlib.Core.Option.{Option, none, some}

pub data Result {ℓ} (A : Type ℓ) : Type ℓ where
  ok : A → Result A
  err : String → Result A

abbrev pub Run {ℓ} : Type ℓ → Type ℓ → Type ℓ
Run S A = S → Result A × S

module _ {ℓ} {S A : Type ℓ} where
  abbrev pub pure : A → Run S A
  pure a s = (ok a, s)

  abbrev pub throw : String → Run S A
  throw e s = (err e, s)

  abbrev pub lift : Result A → Run S A
  lift r s = (r, s)

  -- `try { m } catch { handler }`.
  abbrev pub on_error : (String → Run S A) → Result A × S → Result A × S
  on_error handler (ok a, s) = (ok a, s)
  on_error handler (err e, s) = handler e s

  abbrev pub catch : Run S A → (String → Run S A) → Run S A
  catch m handler s = on_error handler (m s)

  -- `value ?? throw`: an absent value is an error.
  abbrev pub required : Option A → String → Run S A
  required none e = throw e
  required (some a) e = pure a

module _ {ℓ} {S A B : Type ℓ} where
  abbrev pub go_on : (A → Run S B) → Result A × S → Result B × S
  go_on f (ok a, s) = f a s
  go_on f (err e, s) = (err e, s)

  infixl 5 ◌>>=◌ ◌>>◌
  unfoldable pub ◌>>=◌ : Run S A → (A → Run S B) → Run S B
  ◌>>=◌ m f s = go_on f (m s)

  abbrev pub ◌>>◌ : Run S A → Run S B → Run S B
  m >> k = m >>= λ _. k

  go_on-eq-ok :
      (f : A → Run S B) (r : Result A × S) {b : B} {s : S}
      → go_on f r ≡ (ok b, s)
      → (a : A) × (s' : S) × (r ≡ (ok a, s')) × (f a s' ≡ (ok b, s))
  go_on-eq-ok f (ok a, s') e = (a, s', refl, e)
  go_on-eq-ok f (err m, s') e = cc

  -- Inversion of a bind that returns.
  pub bind-eq-ok :
      (m : Run S A) (f : A → Run S B) (s : S) {b : B} {s' : S}
      → (m >>= f) s ≡ (ok b, s')
      → (a : A) × (t : S) × (m s ≡ (ok a, t)) × (f a t ≡ (ok b, s'))
  unfolding ◌>>=◌
  bind-eq-ok m f s e = go_on-eq-ok f (m s) e

pub bind-err {ℓ} :
    {S A B : Type ℓ} (m : Run S A) (f : A → Run S B) (s : S) {e : String} {t : S}
    → m s ≡ (err e, t)
    → (m >>= f) s ≡ (err e, t)
unfolding ◌>>=◌
bind-err m f s h = rw h

pub bind-ok {ℓ} :
    {S A B : Type ℓ} (m : Run S A) (f : A → Run S B) (s : S) {a : A} {t : S}
    → m s ≡ (ok a, t)
    → (m >>= f) s ≡ f a t
unfolding ◌>>=◌
bind-ok m f s h = rw h

-- A check that throws, or what follows does, throws and leaves the state.
pub required-throws {ℓ} :
    {S A B : Type ℓ} (o : Option A) (m : String) (f : A → Run S B) (s : S)
    → ((a : A) → (e : String) × (f a s ≡ (err e, s)))
    → (e : String) × ((required o m >>= f) s ≡ (err e, s))
unfolding ◌>>=◌
required-throws none m f s h = (m, refl)
required-throws (some a) m f s h = h a

-- Inversion of a return, and of a value that has to be there.
pub pure-eq-ok {ℓ} : {S A : Type ℓ} (a : A) {b : A} (s : S) {s' : S} → pure a s ≡ (ok b, s') → b ≡ a
pure-eq-ok a s e = cc

pub required-eq-ok {ℓ} :
    {S A : Type ℓ} (o : Option A) (m : String) (s : S) {a : A} {s' : S}
    → required o m s ≡ (ok a, s')
    → (o ≡ some a) × (s ≡ s')
required-eq-ok none m s e = cc
required-eq-ok (some b) m s e = (cc, cc)

-- An action that leads from every state to a related one, whether it returns or throws.
abbrev pub Keeps {ℓ} : {S A : Type ℓ} → (S → S → Type ℓ) → Run S A → Type ℓ
Keeps R m = (s : _) → R s (m s).1

module _ {ℓ} {S : Type ℓ} (R : S → S → Type ℓ) (same : (s : S) → R s s)
    (step : (s t u : S) → R s t → R t u → R s u) where
  Keeps-go_on :
      {A B : Type ℓ} (f : A → Run S B) (s : S) (r : Result A × S)
      → R s r.1
      → ((a : A) → Keeps R (f a))
      → R s (go_on f r).1
  Keeps-go_on f s (ok a, t) h k = step s t _ h (k a t)
  Keeps-go_on f s (err e, t) h k = h

  pub Keeps-bind :
      {A B : Type ℓ} (m : Run S A) (f : A → Run S B)
      → Keeps R m
      → ((a : A) → Keeps R (f a))
      → Keeps R (m >>= f)
  unfolding ◌>>=◌
  Keeps-bind m f h k s = Keeps-go_on f s (m s) (h s) k

  pub Keeps-required : {A : Type ℓ} (o : Option A) (e : String) → Keeps R (required o e)
  Keeps-required none e s = same s
  Keeps-required (some a) e s = same s
