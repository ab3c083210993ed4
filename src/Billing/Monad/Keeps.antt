-- ===== src/Billing/Monad/Keeps.antt =====
-- Invariants of service methods: what holds before a call holds after it, whether it returns or
-- throws.
use meterplex.Prelude.{Bool, Option, none, some, ◌≡◌, refl, ap}
use meterplex.Billing.State.{Database}
use meterplex.Billing.Monad.{
  Exec, Result, ok, err, Error, pure, gets, or_throw, throw_if, modify, transaction, undo, catch,
  recover, catch_with, recover_with, ◌>>=◌,
}

pub record Keeps {A : Type 0} (P : Database → Type 0) (m : Exec A) : Type 0 where
  pub at : (db : Database) → P db → P (m db).1

module _ {A B : Type 0} (P : Database → Type 0) where
  after :
      (f : A → Exec B)
      → ((a : A) → Keeps P (f a))
      → (r : Result A) (db : Database) → P db
      → P (◌>>=◌ (λ s. (r, s)) f db).1
  after f kf (ok a) db h = (kf a).at db h
  after f kf (err e) db h = h

  -- The rule of a `do` block.
  pub Keeps-bind :
      (m : Exec A) (f : A → Exec B) → Keeps P m → ((a : A) → Keeps P (f a)) → Keeps P (m >>= f)
  Keeps-bind m f km kf = record { at = λ db h. after f kf (m db).0 (m db).1 (km.at db h) }

-- The rules of the other building blocks.
module _ {A : Type 0} (P : Database → Type 0) where
  pub Keeps-pure : (a : A) → Keeps P (pure a)
  Keeps-pure a = record { at = λ db h. h }

  pub Keeps-gets : (f : Database → A) → Keeps P (gets f)
  Keeps-gets f = record { at = λ db h. h }

  pub Keeps-or_throw : (o : Option A) (e : Error) → Keeps P (or_throw o e)
  Keeps-or_throw none e = record { at = λ db h. h }
  Keeps-or_throw (some a) e = record { at = λ db h. h }

  undone : (r : Result A) (old new : Database) → P old → P new → P (undo r old new).1
  undone (ok a) old new h k = k
  undone (err e) old new h k = h

  pub Keeps-transaction : (m : Exec A) → Keeps P m → Keeps P (transaction m)
  Keeps-transaction m km = record { at = λ db h. undone (m db).0 db (m db).1 h (km.at db h) }

  handled : (h : Exec A) → Keeps P h → (r : Result A) (db : Database) → P db → P (recover r h db).1
  handled h kh (ok a) db p = p
  handled h kh (err e) db p = kh.at db p

  pub Keeps-catch : (m h : Exec A) → Keeps P m → Keeps P h → Keeps P (catch m h)
  Keeps-catch m h km kh = record { at = λ db p. handled h kh (m db).0 (m db).1 (km.at db p) }

module _ (P : Database → Type 0) where
  pub Keeps-throw_if : (c : Bool) (e : Error) → Keeps P (throw_if c e)
  Keeps-throw_if c e = record { at = λ db h. h }

  pub Keeps-modify :
      (f : Database → Database) → ((db : Database) → P db → P (f db)) → Keeps P (modify f)
  Keeps-modify f h = record { at = h }

-- A `do` block steps through its first call.
module _ {A B : Type 0} (m : Exec A) (f : A → Exec B) {db db' : Database} where
  pub bind_ok : {a : A} → m db ≡ (ok a, db') → (m >>= f) db ≡ f a db'
  bind_ok h = ap (λ (p : Result A × Database). ◌>>=◌ (λ s. p) f db) h

  pub bind_err : {e : Error} → m db ≡ (err e, db') → (m >>= f) db ≡ (err e, db')
  bind_err h = ap (λ (p : Result A × Database). ◌>>=◌ (λ s. p) f db) h

module _ {A B : Type 0} where
  step_pure : (b : B) (r : Result A) (db : Database) → (◌>>=◌ (λ s. (r, s)) (λ _. pure b) db).1 ≡ db
  step_pure b (ok a) db = refl
  step_pure b (err e) db = refl

  -- A last `pure` writes nothing.
  pub bind_pure : (m : Exec A) (b : B) (db : Database) → ((m >>= λ _. pure b) db).1 ≡ (m db).1
  bind_pure m b db = step_pure b (m db).0 (m db).1

-- A `try` goes on from what its body does.
pub catch_with_step :
    {A : Type 0} (m : Exec A) (h : Error → Exec A) {db db' : Database} {r : Result A}
    → m db ≡ (r, db')
    → catch_with m h db ≡ recover_with r h db'
catch_with_step {A} m h e = ap (λ (p : Result A × Database). recover_with p.0 h p.1) e

-- A `try` whose body returns or throws, and a transaction whose body returns.
module _ {A : Type 0} (m : Exec A) {db db' : Database} where
  pub catch_ok : (h : Exec A) {a : A} → m db ≡ (ok a, db') → catch m h db ≡ (ok a, db')
  catch_ok h e = ap (λ (p : Result A × Database). recover p.0 h p.1) e

  pub catch_err : (h : Exec A) {x : Error} → m db ≡ (err x, db') → catch m h db ≡ h db'
  catch_err h e = ap (λ (p : Result A × Database). recover p.0 h p.1) e

  pub transaction_ok : {a : A} → m db ≡ (ok a, db') → transaction m db ≡ (ok a, db')
  transaction_ok e = ap (λ (p : Result A × Database). undo p.0 db p.1) e
