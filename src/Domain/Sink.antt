-- ===== src/Domain/Sink.antt =====
-- internal/core/domain/sink.go. A sink acts on a world `W` that holds all it can change: the
-- destination, the clock and the contexts' cancellation. A method returns the world that it leaves.
use gtc.Base.{◌≡◌, refl, ℕ, String, Bool, true, List, Option, none, some}
use gtc.Base.Int.{ℤ, pos}
use gtc.Domain.Errors.{Error}
use gtc.Domain.Event.{CdcEvent, Operation}

-- A context.Context: the caller's, or one with a timeout derived from another.
pub data Ctx : Type 0 where
  root : Ctx
  with_timeout : Ctx → ℕ → Ctx

-- The interface Sink, and the optional interfaces BatchLimiter and Router (none: not implemented).
pub record Sink (W : Type 0) : Type 0 where
  pub name : String
  pub initialize : Ctx → W → W × Option Error
  pub process : Ctx → List CdcEvent → W → W × Option Error
  pub shutdown : Ctx → W → W × Option Error
  pub health_check : Ctx → W → W × Option Error
  pub batch_limiter : Option ℤ
  pub router : Option (String → String → Operation → Bool)

-- The runtime that the pipeline runs in: the clock, ctx.Err(), a select between ctx.Done() and a
-- timer, which says whether the context was done first, and the text of an error, which the code
-- stores and never reads back.
pub record Runtime (W : Type 0) : Type 0 where
  pub now : W → W × ℕ
  pub ctx_err : Ctx → W → Option Error
  pub sleep : Ctx → ℕ → W → W × Bool
  pub error_text : Error → String

-- if err := ...; err != nil { return err }, and the rest
abbrev pub if_ok : {W : Type 0} → W × Option Error → (W → W × Option Error) → W × Option Error
if_ok (w, none) rest = rest w
if_ok (w, some e) rest = (w, some e)

pub if_ok-pure : {W : Type 0} (r : W × Option Error) → r ≡ if_ok r (λ w. (w, none))
if_ok-pure (w, none) = refl
if_ok-pure (w, some e) = refl

module _ {W : Type 0} where
  unfoldable pub max_batch_events : Sink W → ℤ
  max_batch_events s = elim s.batch_limiter [ none ↦ pos 0 | some limit ↦ limit ]

  unfoldable pub wants : Sink W → String → String → Operation → Bool
  wants s schema table op = elim s.router [ none ↦ true | some route ↦ route schema table op ]

pub record SinkResult : Type 0 where
  pub sink_name : String
  pub success : Bool
  pub error : Option Error
