-- ===== src/Models/Failure.antt =====
-- A Go `error`, by all that the worker asks of it: its text, which of the worker's sentinel errors
-- `errors.Is` finds in its chain, what the first `net.Error` of the chain answers, and whether the chain
-- holds a rollback mark. A nil error is `none`.
use releasea_worker.Prelude.{String, Bool, true, false, ◌⧺◌}

pub record Error : Type 0 where
  pub message : String
  pub operation_conflict : Bool
  pub not_compatible : Bool
  pub lease_lost : Bool
  pub deployment_not_found : Bool
  pub deadline_exceeded : Bool
  pub net_timeout : Bool
  pub net_temporary : Bool
  pub rollback_performed : Bool

-- A pair of a value and an error: the value counts where the error is nil.
pub data Result {ℓ} (A : Type ℓ) : Type ℓ where
  ok : A → Result A
  err : Error → Result A

-- `errors.New`, and `fmt.Errorf` without `%w`.
abbrev pub new_error : String → Error
new_error text = record {
  message = text;
  operation_conflict = false;
  not_compatible = false;
  lease_lost = false;
  deployment_not_found = false;
  deadline_exceeded = false;
  net_timeout = false;
  net_temporary = false;
  rollback_performed = false;
}

-- `fmt.Errorf("…: %w", err)`.
abbrev pub wrap : String → Error → Error
wrap prefix e = record e { message = prefix ⧺ e.message }

abbrev pub err_operation_conflict : Error
err_operation_conflict = record (new_error "operation conflict") { operation_conflict = true }

abbrev pub err_operation_not_compatible : Error
err_operation_not_compatible = record (new_error "operation not compatible with worker") {
  not_compatible = true;
}

abbrev pub err_operation_lease_lost : Error
err_operation_lease_lost = record (new_error "operation lease lost") { lease_lost = true }

abbrev pub err_deployment_not_found : Error
err_deployment_not_found = record (new_error "deployment not found") { deployment_not_found = true }
