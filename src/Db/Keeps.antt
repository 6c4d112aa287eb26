-- ===== src/Db/Keeps.antt =====
-- What an action of the session leaves alone: a part `f` of the tables that is the same before and
-- after, whether the action succeeds or raises.
use saas_billing_entitlement.Prelude.{
  ◌≡◌, refl, ◌∙◌, Bool, true, false, Option, none, some, if◌then◌else◌,
}
use saas_billing_entitlement.Db.Rows.{Tables}
use saas_billing_entitlement.Db.Session.{
  Session, Error, Result, ok, err, Exec, pure, raise, gets, select, or_raise, scalar_one, continue,
  attempt, now_utc, new_uuid, new_id, ◌>>=◌,
}

pub record Keeps {A C : Type 0} (f : Tables → C) (m : Exec A) : Type 0 where
  pub at : (s : Session) → f (m s).1.tables ≡ f s.tables

module _ {A B C : Type 0} (f : Tables → C) where
  continue-Keeps :
      (r : Result A) (k : A → Exec B)
      → ((a : A) → Keeps f (k a))
      → (s : Session) → f (continue r k s).1.tables ≡ f s.tables
  continue-Keeps (ok a) k h s = (h a).at s
  continue-Keeps (err e) k h s = refl

  pub bind-Keeps :
      (m : Exec A) (k : A → Exec B) → Keeps f m → ((a : A) → Keeps f (k a)) → Keeps f (m >>= k)
  bind-Keeps m k hm hk = record { at = λ s. continue-Keeps (m s).0 k hk (m s).1 ∙ hm.at s }

module _ {A C : Type 0} (f : Tables → C) where
  pub if-Keeps : (b : Bool) (m k : Exec A) → Keeps f m → Keeps f k → Keeps f (if b then m else k)
  if-Keeps true m k hm hk = hm
  if-Keeps false m k hm hk = hk

  pub pure-Keeps : (a : A) → Keeps f (pure a)
  pure-Keeps a = record { at = λ s. refl }

  pub raise-Keeps : (e : Error) → Keeps f (raise {A = A} e)
  raise-Keeps e = record { at = λ s. refl }

  pub select-Keeps : (g : Tables → A) → Keeps f (select g)
  select-Keeps g = record { at = λ s. refl }

  pub gets-Keeps : (g : Session → A) → Keeps f (gets g)
  gets-Keeps g = record { at = λ s. refl }

  pub or_raise-Keeps : (o : Option A) (e : Error) → Keeps f (or_raise o e)
  or_raise-Keeps none e = record { at = λ s. refl }
  or_raise-Keeps (some a) e = record { at = λ s. refl }

  pub scalar_one-Keeps : (o : Option A) → Keeps f (scalar_one o)
  scalar_one-Keeps none = record { at = λ s. refl }
  scalar_one-Keeps (some a) = record { at = λ s. refl }

  pub attempt-Keeps : (m : Exec A) → Keeps f m → Keeps f (attempt m)
  attempt-Keeps m h = record { at = λ s. h.at s }

module _ {C : Type 0} (f : Tables → C) where
  pub now_utc-Keeps : Keeps f now_utc
  now_utc-Keeps = record { at = λ s. refl }

  pub new_uuid-Keeps : Keeps f new_uuid
  new_uuid-Keeps = record { at = λ s. refl }

  pub new_id-Keeps : Keeps f new_id
  new_id-Keeps = record { at = λ s. refl }

pub ruleset keeps = (
  bind-Keeps, if-Keeps, pure-Keeps, raise-Keeps, select-Keeps, gets-Keeps, or_raise-Keeps,
  scalar_one-Keeps, attempt-Keeps, now_utc-Keeps, new_uuid-Keeps, new_id-Keeps,
)
