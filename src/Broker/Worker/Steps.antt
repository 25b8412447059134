-- ===== src/Broker/Worker/Steps.antt =====
-- One step of a chain of effects, by the outcome of the step.
use operandi.Common.{
  ◌≡◌, refl, ap, Bool, true, false, Exec, ok, raised, continue, ◌>>=◌, Exc, Outcome,
  every_exception,
}
use operandi.Database.Models.{Db}
use operandi.Hpc.Transfer.{Local}
use operandi.Broker.Worker.{Site, on_db, on_local, try_then}

module _ {W A : Type 0} (m : Exec Db A) (s : Site W) where
  pub on_db_ok : (a : A) (db : Db) → m s.db ≡ ok a db → on_db m s ≡ ok a (record s { db = db })
  on_db_ok a db h = rw (on_db, h) refl

  pub on_db_raised :
      (e : Exc) (db : Db) → m s.db ≡ raised e db → on_db m s ≡ raised e (record s { db = db })
  on_db_raised e db h = rw (on_db, h) refl

module _ {W A : Type 0} (m : Exec Local A) (s : Site W) where
  pub on_local_ok :
      (a : A) (local : Local)
      → m s.local ≡ ok a local
      → on_local m s ≡ ok a (record s { local = local })
  on_local_ok a local h = rw (on_local, h) refl

  pub on_local_raised :
      (e : Exc) (local : Local)
      → m s.local ≡ raised e local
      → on_local m s ≡ raised e (record s { local = local })
  on_local_raised e local h = rw (on_local, h) refl

module _ {ℓ} {S : Type ℓ} {A B : Type 0} (m : Exec S A) (f : A → Exec S B) (s : S) where
  pub bind_ok : (a : A) (t : S) → m s ≡ ok a t → (m >>= f) s ≡ f a t
  bind_ok a t h = ap (λ r. continue r f) h

  pub bind_raised : (e : Exc) (t : S) → m s ≡ raised e t → (m >>= f) s ≡ raised e t
  bind_raised e t h = ap (λ r. continue r f) h

module _ {ℓ} {S : Type ℓ} {A : Type 0} (caught : Exc → Bool) (m : Exec S A)
    (handler : Exec S (Unit {0})) (rest : A → Exec S (Unit {0})) (s : S) where
  pub try_then_ok : (a : A) (t : S) → m s ≡ ok a t → try_then caught m handler rest s ≡ rest a t
  try_then_ok a t h = rw (try_then, h) refl

  pub try_then_caught :
      (e : Exc) (t : S)
      → m s ≡ raised e t
      → caught e ≡ true
      → try_then caught m handler rest s ≡ handler t
  try_then_caught e t h is_caught = rw (try_then, h) (rw is_caught refl)

  pub try_then_escapes :
      (e : Exc) (t : S)
      → m s ≡ raised e t
      → caught e ≡ false
      → try_then caught m handler rest s ≡ raised e t
  try_then_escapes e t h escapes = rw (try_then, h) (rw escapes refl)

-- Two `try` blocks one after the other, with the same handler for every exception, act as one.
pub try_then_merge {ℓ} :
    {S : Type ℓ} {A B : Type 0} (m : Exec S A) (f : A → Exec S B) (handler : Exec S (Unit {0}))
    (rest : A → Exec S (Unit {0})) (end : B → Exec S (Unit {0})) (s : S)
    → ((a : A) (t : S) → rest a t ≡ try_then every_exception (f a) handler end t)
    → try_then every_exception m handler rest s ≡ try_then every_exception (m >>= f) handler end s
try_then_merge m f handler rest end s same = by_outcome (m s) refl
  where
    by_outcome :
        (r : Outcome _ _)
        → m s ≡ r
        → try_then every_exception m handler rest s
          ≡ try_then every_exception (m >>= f) handler end s
    by_outcome (ok a t) h = rw (try_then, ◌>>=◌, h) (same a t)
    by_outcome (raised e t) h = rw (try_then, ◌>>=◌, h) refl
