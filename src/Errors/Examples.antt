-- ===== src/Errors/Examples.antt =====
-- Tests of errors on the wire, and an instance of their theorem.
use openpay.Base.{◌≢◌, ◌++◌, ◌≡◌, refl, Option, none, some, [], ◌∷◌}
use openpay.Errors.{Code}
use openpay.Errors.Status.{
  GrpcCode, ErrorInfo, Status, AppError, grpc_code, message, grpc_status, named_code,
  code_from_grpc, from_status, from_status-grpc_status,
}

abbrev attach : Status → ErrorInfo → Option Status
attach s info = elim s.code [
  | GrpcCode.ok ↦ none
  | _ ↦ some (record s { details = s.details ++ info ∷ [] })
]

attach-appends :
    (s : Status) (info : ErrorInfo)
    → s.code ≢ GrpcCode.ok
    → attach s info ≡ some (record s { details = s.details ++ info ∷ [] })
attach-appends s info h = by_code s.code h
  where
    by_code :
        (c : GrpcCode)
        → c ≢ GrpcCode.ok
        → attach (record s { code = c }) info
          ≡ some (record s { code = c; details = s.details ++ info ∷ [] })
    by_code GrpcCode.ok h = absurd (h refl)
    by_code GrpcCode.unknown h = refl
    by_code GrpcCode.internal h = refl
    by_code GrpcCode.invalid_argument h = refl
    by_code GrpcCode.out_of_range h = refl
    by_code GrpcCode.not_found h = refl
    by_code GrpcCode.already_exists h = refl
    by_code GrpcCode.permission_denied h = refl
    by_code GrpcCode.unauthenticated h = refl
    by_code GrpcCode.failed_precondition h = refl
    by_code GrpcCode.unavailable h = refl
    by_code GrpcCode.deadline_exceeded h = refl
    by_code GrpcCode.resource_exhausted h = refl
    by_code GrpcCode.aborted h = refl
    by_code GrpcCode.other h = refl

abbrev refuse : Status → ErrorInfo → Option Status
refuse s info = none

abbrev short_of_money : AppError
short_of_money = record { code = Code.insufficient_balance; msg = "balance too low" }

-- Without the detail only the gRPC code is left.
undetailed :
    from_status "rpc error" (grpc_status refuse short_of_money)
    ≡ record { code = Code.failed_precondition; msg = "balance too low" }
unfolding from_status grpc_status grpc_code message named_code code_from_grpc
undetailed = refl

-- A detail of another domain, or with a name that is not known, is passed over.
foreign :
    from_status "rpc error" (record {
      code = GrpcCode.aborted;
      message = "busy";
      details =
          record { reason = "not_found"; domain = "elsewhere" }
          ∷ record { reason = "teapot"; domain = "openpay" }
          ∷ [];
    })
    ≡ record { code = Code.internal; msg = "busy" }
unfolding from_status named_code code_from_grpc
foreign = refl

from_status-grpc_status_example :
    from_status "rpc error" (grpc_status attach short_of_money)
    ≡ record { code = Code.insufficient_balance; msg = message short_of_money }
from_status-grpc_status_example =
    from_status-grpc_status attach "rpc error" short_of_money attach-appends
