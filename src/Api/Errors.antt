-- ===== src/Api/Errors.antt =====
-- The errors of the API's domain (api/src/vms/shared/exceptions.py) as values.
use Prim.Native.String.{String}

-- NotFoundError, BusinessRuleViolation and ConflictError, with their messages.
pub data Error : Type 0 where
  not_found business_rule conflict : String → Error

pub data Result (A : Type 0) : Type 0 where
  failed : Error → Result A
  done : A → Result A

abbrev pub and_then : {A B : Type 0} → Result A → (A → Result B) → Result B
and_then (failed e) f = failed e
and_then (done a) f = f a
