-- ===== src/Domain/Errors.antt =====
-- internal/core/domain/errors.go. A Go error is the tree that errors.Is and errors.As walk: the
-- sentinels, fmt.Errorf with the fixed part of its message and what it wraps, errors.Join, PermanentError.
use gtc.Base.{String, Bool, true, false, ◌||◌, List, [], ◌∷◌, Option, none, some}

-- The package-level values that errors.Is is asked for, those of other packages included.
pub data Sentinel : Type 0 where
  sink_not_found sink_already_exists sink_init_failed sink_process_failed : Sentinel
  sink_shutdown_failed wal_connection_lost invalid_event circuit_open shutting_down : Sentinel
  dlq_full dlq_not_found : Sentinel
  deadline_exceeded canceled : Sentinel
  open_state too_many_requests redis_nil : Sentinel

-- `errors` is the Errs of an errors.Join or of an fmt.Errorf with several %w.
mutual
  pub data Error : Type 0 where
    sentinel : Sentinel → Error
    message : String → Error
    wrap : String → Error → Error
    wrap_all : String → Errors → Error
    join : Errors → Error
    permanent : Error → Error

  pub data Errors : Type 0 where
    nil : Errors
    cons : Error → Errors → Errors

Sentinel-discrete : Discrete Sentinel
Sentinel-discrete = hlevel

unfoldable pub same : Sentinel → Sentinel → Bool
unfolding Sentinel-discrete
same a b = elim (Sentinel-discrete a b) [ yes p ↦ true | no p ↦ false ]

-- errors.Is(err, target)
unfoldable mutual
  pub is : Error → Sentinel → Bool
  is (sentinel s) t = same s t
  is (message m) t = false
  is (wrap m e) t = is e t
  is (wrap_all m es) t = is_any es t
  is (join es) t = is_any es t
  is (permanent e) t = is e t

  is_any : Errors → Sentinel → Bool
  is_any nil t = false
  is_any (cons e es) t = is e t || is_any es t

-- IsPermanent: errors.As for *PermanentError
unfoldable mutual
  pub is_permanent : Error → Bool
  is_permanent (sentinel s) = false
  is_permanent (message m) = false
  is_permanent (wrap m e) = is_permanent e
  is_permanent (wrap_all m es) = any_permanent es
  is_permanent (join es) = any_permanent es
  is_permanent (permanent e) = true

  any_permanent : Errors → Bool
  any_permanent nil = false
  any_permanent (cons e es) = is_permanent e || any_permanent es

-- Permanent: a nil error stays nil
unfoldable pub as_permanent : Option Error → Option Error
as_permanent none = none
as_permanent (some e) = some (permanent e)

unfoldable pub from_list : List Error → Errors
from_list [] = nil
from_list (e ∷ es) = cons e (from_list es)

-- errors.Join of errors that are not nil
unfoldable pub join_list : List Error → Option Error
unfolding from_list
join_list [] = none
join_list (e ∷ es) = some (join (from_list (e ∷ es)))
