-- ===== src/Broker/Worker/Rules.antt =====
-- The rules of conditions for what the workers are built of.
use operandi.Common.{
  Bool-cases, inl, inr, ◌≡◌, refl, sym, subst, Bool, Exc, Outcome, ok, raised, Exec, Post, Ensures,
}
use operandi.Database.Models.{Db}
use operandi.Hpc.Transfer.{Local}
use operandi.Broker.Worker.{Site, on_db, on_local, try_then}
use operandi.Broker.Worker.Steps.{
  on_db_ok, on_db_raised, on_local_ok, on_local_raised, try_then_ok, try_then_caught,
  try_then_escapes,
}

module _ {W A : Type 0} (Q : A → Site W → Type 0) (E : Site W → Type 0) where
  pub Post-on_db :
      (m : Exec Db A) (s : Site W) (r : Outcome Db A)
      → m s.db ≡ r
      → Post (λ a db. Q a (record s { db = db })) (λ db. E (record s { db = db })) r
      → Post Q E (on_db m s)
  Post-on_db m s (ok a db) e h = subst (Post Q E) (sym (on_db_ok m s a db e)) h
  Post-on_db m s (raised x db) e h = subst (Post Q E) (sym (on_db_raised m s x db e)) h

  Post-on_local :
      (m : Exec Local A) (s : Site W) (r : Outcome Local A)
      → m s.local ≡ r
      → Post (λ a l. Q a (record s { local = l })) (λ l. E (record s { local = l })) r
      → Post Q E (on_local m s)
  Post-on_local m s (ok a l) e h = subst (Post Q E) (sym (on_local_ok m s a l e)) h
  Post-on_local m s (raised x l) e h = subst (Post Q E) (sym (on_local_raised m s x l e)) h

module _ {W A : Type 0} {Q : A → Site W → Type 0} {E : Site W → Type 0} where
  -- An action on the database, for every rest of the state.
  pub Ensures-on_db :
      {P : Site W → Type 0} (m : Exec Db A)
      → ((s : Site W)
          → Ensures
              (λ db. P (record s { db = db }))
              m
              (λ a db. Q a (record s { db = db }))
              (λ db. E (record s { db = db })))
      → Ensures P (on_db m) Q E
  Ensures-on_db m h = record { at = λ s p. Post-on_db Q E m s (m s.db) refl ((h s).at s.db p) }

  pub Ensures-on_local :
      {P : Site W → Type 0} (m : Exec Local A)
      → ((s : Site W)
          → Ensures
              (λ l. P (record s { local = l }))
              m
              (λ a l. Q a (record s { local = l }))
              (λ l. E (record s { local = l })))
      → Ensures P (on_local m) Q E
  Ensures-on_local m h = record {
    at = λ s p. Post-on_local Q E m s (m s.local) refl ((h s).at s.local p);
  }

module _ {S A : Type 0} {Q : Unit {0} → S → Type 0} {E F : S → Type 0} (R : A → S → Type 0) where
  Post-try_then :
      (caught : Exc → Bool) (m : Exec S A) (handler : Exec S (Unit {0}))
      (rest : A → Exec S (Unit {0})) (s : S) (r : Outcome S A)
      → m s ≡ r
      → Post R F r
      → ((t : S) → F t → E t)
      → Ensures F handler Q E
      → ((a : A) → Ensures (R a) (rest a) Q E)
      → Post Q E (try_then caught m handler rest s)
  Post-try_then caught m handler rest s (ok a t) e p weaker h k =
      subst (Post Q E) (sym (try_then_ok caught m handler rest s a t e)) ((k a).at t p)
  Post-try_then caught m handler rest s (raised x t) e p weaker h k = elim (Bool-cases (caught x)) [
    | inl yes_caught ↦
        subst (Post Q E) (sym (try_then_caught caught m handler rest s x t e yes_caught)) (h.at t p)
    | inr escapes ↦
        subst (Post Q E) (sym (try_then_escapes caught m handler rest s x t e escapes)) (weaker t p)
  ]

  -- What the `try` block raises is handled, or leaves.
  pub Ensures-try_then :
      {P : S → Type 0} (caught : Exc → Bool) (m : Exec S A) (handler : Exec S (Unit {0}))
      (rest : A → Exec S (Unit {0}))
      → Ensures P m R F
      → ((t : S) → F t → E t)
      → Ensures F handler Q E
      → ((a : A) → Ensures (R a) (rest a) Q E)
      → Ensures P (try_then caught m handler rest) Q E
  Ensures-try_then caught m handler rest hm weaker h k = record {
    at = λ s p. Post-try_then caught m handler rest s (m s) refl (hm.at s p) weaker h k;
  }
