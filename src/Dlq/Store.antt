-- ===== src/Dlq/Store.antt =====
-- The entry of internal/core/domain/dlq.go and the interface Store of dlq/store.go.
use gtc.Base.{ℕ, String, List, Option}
use gtc.Base.Int.{ℤ}
use gtc.Domain.Errors.{Error}
use gtc.Domain.Event.{CdcEvent}
use gtc.Domain.Sink.{Ctx}

pub record DeadLetterEntry : Type 0 where
  pub id : String
  pub sink_name : String
  pub schema : String
  pub table : String
  pub operation : String
  pub lsn : String
  pub error : String
  pub attempts : ℕ
  pub first_failed_at : ℕ
  pub last_failed_at : ℕ
  pub event : CdcEvent

-- A value or an error, for Go's (T, error).
pub data Answer (A : Type 0) : Type 0 where
  got : A → Answer A
  failed : Error → Answer A

pub record Store (W : Type 0) : Type 0 where
  pub park : Ctx → DeadLetterEntry → W → W × Option Error
  pub get : Ctx → String → W → W × Answer DeadLetterEntry
  pub list : Ctx → ℤ → W → W × Answer (List DeadLetterEntry)
  pub remove : Ctx → String → W → W × Option Error
  pub len : Ctx → W → W × Answer ℕ
