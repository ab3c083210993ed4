-- ===== src/Prelude/Service.antt =====
-- A service method over a store `S`: it reads and writes the store and may throw an `E`. What was
-- written before a throw stays written, except inside `$transaction`.
use mathlib.Core.Path.{◌≡◌, refl, ap, sym, subst}
use mathlib.Core.Logic.{◌⊎◌, inl, inr}
use mathlib.Core.Bool.{Bool}
use mathlib.Core.Option.{Option, none, some}
use meterplex.Prelude.Tests.{if◌then◌else◌}

pub data Result (E A : Type 0) : Type 0 where
  ok : A → Result E A
  err : E → Result E A

abbrev pub Service : Type 0 → Type 0 → Type 0 → Type 0
Service S E A = S → Result E A × S

pub Result-cases :
    {E A : Type 0} (r : Result E A) → ((a : A) × (r ≡ ok a)) ⊎ ((e : E) × (r ≡ err e))
Result-cases (ok a) = inl (a, refl)
Result-cases (err e) = inr (e, refl)

module _ {S E A : Type 0} where
  abbrev pub pure : A → Service S E A
  pure a s = (ok a, s)

  abbrev pub throw : E → Service S E A
  throw e s = (err e, s)

  abbrev pub gets : (S → A) → Service S E A
  gets f s = (ok (f s), s)

  abbrev pub or_throw : Option A → E → Service S E A
  or_throw none e = throw e
  or_throw (some a) e = pure a

infixl 5 ◌>>=◌ ◌>>◌
abbrev pub ◌>>=◌ : {S E A B : Type 0} → Service S E A → (A → Service S E B) → Service S E B
◌>>=◌ m f s = let (r, s') = m s in elim r [ ok a ↦ f a s' | err e ↦ throw e s' ]

abbrev pub ◌>>◌ : {S E A B : Type 0} → Service S E A → Service S E B → Service S E B
m >> k = m >>= λ _. k

module _ {S E : Type 0} where
  abbrev pub throw_if : Bool → E → Service S E (Unit {0})
  throw_if c e s = (if c then err e else ok tt, s)

  abbrev pub modify : (S → S) → Service S E (Unit {0})
  modify f s = (ok tt, f s)

module _ {S E A : Type 0} where
  -- `$transaction(async (tx) => …)`: a throw undoes every write
  abbrev pub undo : Result E A → S → S → Result E A × S
  undo (ok a) old new = (ok a, new)
  undo (err e) old new = (err e, old)

  abbrev pub transaction : Service S E A → Service S E A
  transaction m s = let (r, s') = m s in undo r s s'

  -- `try { … } catch (error) { … }`
  abbrev pub recover : Result E A → (E → Service S E A) → Service S E A
  recover (ok a) h s = (ok a, s)
  recover (err e) h s = h e s

  abbrev pub catch : Service S E A → (E → Service S E A) → Service S E A
  catch m h s = let (r, s') = m s in recover r h s'

  -- `catch (error)` that throws another error instead, or the same one again
  abbrev pub rethrow : (E → E) → Service S E A → Service S E A
  rethrow f m = catch m (λ e. throw (f e))

-- What holds before a call holds after it, whether it returns or throws.
pub record Keeps {S E A : Type 0} (P : S → Type 0) (m : Service S E A) : Type 0 where
  pub at : (s : S) → P s → P (m s).1

module _ {S E A B : Type 0} (P : S → Type 0) where
  after :
      (f : A → Service S E B)
      → ((a : A) → Keeps P (f a))
      → (r : Result E A) (s : S) → P s
      → P (◌>>=◌ (λ t. (r, t)) f s).1
  after f kf (ok a) s h = (kf a).at s h
  after f kf (err e) s h = h

  -- The rule of a `do` block.
  pub Keeps-bind :
      (m : Service S E A) (f : A → Service S E B)
      → Keeps P m
      → ((a : A) → Keeps P (f a))
      → Keeps P (m >>= f)
  Keeps-bind m f km kf = record { at = λ s h. after f kf (m s).0 (m s).1 (km.at s h) }

module _ {S E A : Type 0} (P : S → Type 0) where
  pub Keeps-pure : (a : A) → Keeps {S = S} {E = E} P (pure a)
  Keeps-pure a = record { at = λ s h. h }

  pub Keeps-throw : (e : E) → Keeps {S = S} {E = E} {A = A} P (throw e)
  Keeps-throw e = record { at = λ s h. h }

  pub Keeps-gets : (f : S → A) → Keeps {S = S} {E = E} P (gets f)
  Keeps-gets f = record { at = λ s h. h }

  pub Keeps-or_throw : (o : Option A) (e : E) → Keeps {S = S} {E = E} P (or_throw o e)
  Keeps-or_throw none e = record { at = λ s h. h }
  Keeps-or_throw (some a) e = record { at = λ s h. h }

  undone : (r : Result E A) (old new : S) → P old → P new → P (undo r old new).1
  undone (ok a) old new h k = k
  undone (err e) old new h k = h

  pub Keeps-transaction : (m : Service S E A) → Keeps P m → Keeps P (transaction m)
  Keeps-transaction m km = record { at = λ s h. undone (m s).0 s (m s).1 h (km.at s h) }

  handled :
      (h : E → Service S E A)
      → ((e : E) → Keeps P (h e))
      → (r : Result E A) (s : S) → P s
      → P (recover r h s).1
  handled h kh (ok a) s p = p
  handled h kh (err e) s p = (kh e).at s p

  pub Keeps-catch :
      (m : Service S E A) (h : E → Service S E A)
      → Keeps P m
      → ((e : E) → Keeps P (h e))
      → Keeps P (catch m h)
  Keeps-catch m h km kh = record { at = λ s p. handled h kh (m s).0 (m s).1 (km.at s p) }

  pub Keeps-rethrow : (f : E → E) (m : Service S E A) → Keeps P m → Keeps P (rethrow f m)
  Keeps-rethrow f m km = Keeps-catch m (λ e. throw (f e)) km (λ e. Keeps-throw (f e))

module _ {S E : Type 0} (P : S → Type 0) where
  pub Keeps-throw_if : (c : Bool) (e : E) → Keeps {S = S} {E = E} P (throw_if c e)
  Keeps-throw_if c e = record { at = λ s h. h }

  pub Keeps-modify : (f : S → S) → ((s : S) → P s → P (f s)) → Keeps {S = S} {E = E} P (modify f)
  Keeps-modify f h = record { at = h }

-- What holds before a call holds after it if the call returns.
abbrev pub Good : {S E A : Type 0} → (S → Type 0) → Result E A → S → Type 0
Good P (ok a) s = P s
Good P (err e) s = Unit

pub record KeepsOk {S E A : Type 0} (P : S → Type 0) (m : Service S E A) : Type 0 where
  pub at : (s : S) → P s → Good P (m s).0 (m s).1

module _ {S E A B : Type 0} (P : S → Type 0) where
  after_ok :
      (f : A → Service S E B)
      → ((a : A) → KeepsOk P (f a))
      → (r : Result E A) (s : S) → P s
      → let (r', s') = ◌>>=◌ (λ t. (r, t)) f s in Good P r' s'
  after_ok f kf (ok a) s h = (kf a).at s h
  after_ok f kf (err e) s h = tt

  pub KeepsOk-bind :
      (m : Service S E A) (f : A → Service S E B)
      → Keeps P m
      → ((a : A) → KeepsOk P (f a))
      → KeepsOk P (m >>= f)
  KeepsOk-bind m f km kf = record { at = λ s h. after_ok f kf (m s).0 (m s).1 (km.at s h) }

module _ {S E A : Type 0} (P : S → Type 0) where
  undone_ok : (r : Result E A) (old new : S) → P old → Good P r new → P (undo r old new).1
  undone_ok (ok a) old new h k = k
  undone_ok (err e) old new h k = h

  -- A transaction keeps what its body keeps when it returns.
  pub transaction-KeepsOk : (m : Service S E A) → KeepsOk P m → Keeps P (transaction m)
  transaction-KeepsOk m km = record { at = λ s h. undone_ok (m s).0 s (m s).1 h (km.at s h) }

-- A `do` block steps through its first call.
module _ {S E A B : Type 0} (m : Service S E A) (f : A → Service S E B) {s s' : S} where
  pub bind_ok : {a : A} → m s ≡ (ok a, s') → (m >>= f) s ≡ f a s'
  bind_ok h = ap (λ (p : Result E A × S). ◌>>=◌ (λ t. p) f s) h

  pub bind_err : {e : E} → m s ≡ (err e, s') → (m >>= f) s ≡ (err e, s')
  bind_err h = ap (λ (p : Result E A × S). ◌>>=◌ (λ t. p) f s) h

-- A `do` block whose first call returns or throws.
module _ {S E A B : Type 0} (P : S → Type 0) (m : Service S E A) (f : A → Service S E B)
    {s s' : S} where
  pub Good-step :
      {a : A}
      → m s ≡ (ok a, s')
      → Good P (f a s').0 (f a s').1
      → Good P ((m >>= f) s).0 ((m >>= f) s).1
  Good-step h g = subst (λ (p : Result E B × S). Good P p.0 p.1) (sym (bind_ok m f h)) g

  pub Good-stop : {e : E} → m s ≡ (err e, s') → Good P ((m >>= f) s).0 ((m >>= f) s).1
  Good-stop h = subst (λ (p : Result E B × S). Good P p.0 p.1) (sym (bind_err m f h)) tt

-- A `try` whose body returns or throws, and a transaction whose body returns or throws.
module _ {S E A : Type 0} (m : Service S E A) {s s' : S} where
  pub catch_ok : (h : E → Service S E A) {a : A} → m s ≡ (ok a, s') → catch m h s ≡ (ok a, s')
  catch_ok h e = ap (λ (p : Result E A × S). recover p.0 h p.1) e

  pub catch_err : (h : E → Service S E A) {x : E} → m s ≡ (err x, s') → catch m h s ≡ h x s'
  catch_err h e = ap (λ (p : Result E A × S). recover p.0 h p.1) e

  pub transaction_ok : {a : A} → m s ≡ (ok a, s') → transaction m s ≡ (ok a, s')
  transaction_ok e = ap (λ (p : Result E A × S). undo p.0 s p.1) e

  pub transaction_err : {x : E} → m s ≡ (err x, s') → transaction m s ≡ (err x, s)
  transaction_err e = ap (λ (p : Result E A × S). undo p.0 s p.1) e
