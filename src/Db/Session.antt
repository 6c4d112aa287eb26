-- ===== src/Db/Session.antt =====
-- A database session as a state, and the actions of the services on it. What was written before a raise
-- stays in the session until its caller rolls back, so the state comes back beside an error too.
use saas_billing_entitlement.Prelude.{ℕ, ◌+◌, Bool, false, Option, none, some, String}
use saas_billing_entitlement.Prelude.Int.{ℤ}
use saas_billing_entitlement.Db.Json.{Json}
use saas_billing_entitlement.Db.Rows.{Tables}

-- The exceptions that the services raise, each with its text where the source reads it.
pub data Error : Type 0 where
  illegal_transition : String → Error
  webhook_processing : String → Error
  no_result : String → Error
  value_error : String → Error
  runtime_error : String → Error
  ledger_entry_not_found : Error
  invoice_not_found : Error
  invoice_not_mutable : Error
  integrity_error : Error
  data_error : Error
  pending_rollback : Error
  plan_not_published : Error
  plan_change_unsupported : Error
  plan_change_not_allowed : Error
  subscription_required : Error
  webhook_not_found : Error
  product_not_found : Error
  plan_not_found : Error
  plan_not_draft : Error
  plan_draft_exists : Error
  feature_not_found : Error
  invalid_feature_type : Error
  not_authenticated : Error
  forbidden : Error
  key_error : String → Error

-- What the process asks of its surroundings: `uuid7()`, the clock, `str.upper`, the texts
-- of an instant (with `Z`, and with `+00:00`), those of exceptions, `str` of a value that is
-- no text and of a quantity, the text of SQLAlchemy's `NoResultFound`, and whether the columns of the
-- ledger can hold a currency and an amount. Its answers may be any.
pub record Host : Type 0 where
  pub uuid7 : ℕ → String
  pub clock : ℕ → ℕ
  pub upper : String → String
  pub isoformat : ℕ → String
  pub isoformat_utc : ℕ → String
  pub exception_text : Error → String
  pub json_text : Json → String
  pub decimal_text : ℤ → String
  pub no_row_message : String
  pub columns_hold : String → ℤ → Bool

-- `tables` is what the session sees, `committed` what a rollback returns to;
-- `transaction_time` is SQL's `now()`. The numbers count the
-- identities, UUIDs and clock readings handed out so far; identities come from one sequence.
pub record Session : Type 0 where
  pub host : Host
  pub tables : Tables
  pub committed : Tables
  pub transaction_time : ℕ
  pub next_id : ℕ
  pub uuids : ℕ
  pub readings : ℕ

pub data Result (A : Type 0) : Type 0 where
  ok : A → Result A
  err : Error → Result A

-- A call that ended in `DataError`: a value that PostgreSQL refused when it was flushed. The session can
-- do nothing more until it is rolled back, and raises `PendingRollbackError` on the next flush.
abbrev pub is_data_error : Error → Bool
is_data_error data_error = Bool.true
is_data_error _ = false

abbrev pub is_refused : {A : Type 0} → Result A → Bool
is_refused (ok a) = false
is_refused (err e) = is_data_error e

abbrev pub Exec : Type 0 → Type 0
Exec A = Session → Result A × Session

module _ {A : Type 0} where
  abbrev pub pure : A → Exec A
  pure a s = (ok a, s)

  abbrev pub raise : Error → Exec A
  raise e s = (err e, s)

  abbrev pub gets : (Session → A) → Exec A
  gets f s = (ok (f s), s)

  abbrev pub or_raise : Option A → Error → Exec A
  or_raise none e = raise e
  or_raise (some a) _ = pure a

-- What follows a call, by how the call ended.
abbrev pub continue : {A B : Type 0} → Result A → (A → Exec B) → Exec B
continue (ok a) f s = f a s
continue (err e) f s = (err e, s)

infixl 5 ◌>>=◌ ◌>>◌
abbrev pub ◌>>=◌ : {A B : Type 0} → Exec A → (A → Exec B) → Exec B
◌>>=◌ m f s = let (r, s') = m s in continue r f s'

abbrev pub ◌>>◌ : {A B : Type 0} → Exec A → Exec B → Exec B
m >> k = m >>= λ _. k

abbrev pub modify : (Tables → Tables) → Exec (Unit {0})
modify f s = (ok tt, record s { tables = f s.tables })

-- A query.
abbrev pub select : {A : Type 0} → (Tables → A) → Exec A
select f s = (ok (f s.tables), s)

-- `result.scalar_one()`
abbrev pub scalar_one : {A : Type 0} → Option A → Exec A
scalar_one none s = (err (no_result s.host.no_row_message), s)
scalar_one (some a) s = (ok a, s)

abbrev pub new_id : Exec ℕ
new_id s = (ok s.next_id, record s { next_id = s.next_id + 1 })

-- `generate_uuidv7()`
abbrev pub new_uuid : Exec String
new_uuid s = (ok (s.host.uuid7 s.uuids), record s { uuids = s.uuids + 1 })

-- `datetime.now(UTC)`
abbrev pub now_utc : Exec ℕ
now_utc s = (ok (s.host.clock s.readings), record s { readings = s.readings + 1 })

-- `session.rollback()`
abbrev pub rollback : Exec (Unit {0})
rollback s = (ok tt, record s { tables = s.committed })

-- `try`: how the call ended, as a value.
abbrev pub attempt : {A : Type 0} → Exec A → Exec (Result A)
attempt m s = let (r, s') = m s in (ok r, s')
