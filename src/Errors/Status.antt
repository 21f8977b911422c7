-- ===== src/Errors/Status.antt =====
-- pkg/apperrors/errors.go: an error on the wire (`GRPCStatus`), and read back from it (`From`). A
-- cause, which is for logs, is left out.
use openpay.Base.{
  ◌≢◌, ◌++◌, ◌≡◌, ◌∙◌, refl, ap, Option, none, some, String, List, [], ◌∷◌, str_eq, if◌then◌else◌,
}
use openpay.Errors.{Code}

-- The gRPC codes that the source names; the others are `other`.
pub data GrpcCode : Type 0 where
  ok unknown internal invalid_argument out_of_range not_found already_exists permission_denied :
      GrpcCode
  unauthenticated failed_precondition unavailable deadline_exceeded resource_exhausted : GrpcCode
  aborted other : GrpcCode

-- `errdetails.ErrorInfo`, and `status.Status` with such details.
pub record ErrorInfo : Type 0 where
  pub reason : String
  pub domain : String

pub record Status : Type 0 where
  pub code : GrpcCode
  pub message : String
  pub details : List ErrorInfo

pub record AppError : Type 0 where
  pub code : Code
  pub msg : String

abbrev pub code_string : Code → String
code_string Code.internal = "internal"
code_string Code.invalid_argument = "invalid_argument"
code_string Code.not_found = "not_found"
code_string Code.already_exists = "already_exists"
code_string Code.permission_denied = "permission_denied"
code_string Code.unauthenticated = "unauthenticated"
code_string Code.failed_precondition = "failed_precondition"
code_string Code.unavailable = "unavailable"
code_string Code.rate_limited = "rate_limited"
code_string Code.insufficient_balance = "insufficient_balance"
code_string Code.idempotency_key_conflict = "idempotency_key_conflict"
code_string Code.idempotency_in_progress = "idempotency_in_progress"
code_string Code.ledger_imbalance = "ledger_imbalance"
code_string Code.currency_mismatch = "currency_mismatch"
code_string Code.wallet_operation_denied = "wallet_operation_denied"

-- `grpcCodes`
unfoldable pub grpc_code : Code → GrpcCode
grpc_code Code.internal = GrpcCode.internal
grpc_code Code.invalid_argument = GrpcCode.invalid_argument
grpc_code Code.not_found = GrpcCode.not_found
grpc_code Code.already_exists = GrpcCode.already_exists
grpc_code Code.permission_denied = GrpcCode.permission_denied
grpc_code Code.unauthenticated = GrpcCode.unauthenticated
grpc_code Code.failed_precondition = GrpcCode.failed_precondition
grpc_code Code.unavailable = GrpcCode.unavailable
grpc_code Code.rate_limited = GrpcCode.resource_exhausted
grpc_code Code.insufficient_balance = GrpcCode.failed_precondition
grpc_code Code.idempotency_key_conflict = GrpcCode.already_exists
grpc_code Code.idempotency_in_progress = GrpcCode.aborted
grpc_code Code.ledger_imbalance = GrpcCode.internal
grpc_code Code.currency_mismatch = GrpcCode.invalid_argument
grpc_code Code.wallet_operation_denied = GrpcCode.failed_precondition

-- The keys of `grpcCodes`.
abbrev pub known_codes : List Code
known_codes =
    Code.internal ∷ Code.invalid_argument ∷ Code.not_found ∷ Code.already_exists
    ∷ Code.permission_denied ∷ Code.unauthenticated ∷ Code.failed_precondition ∷ Code.unavailable
    ∷ Code.rate_limited ∷ Code.insufficient_balance ∷ Code.idempotency_key_conflict
    ∷ Code.idempotency_in_progress ∷ Code.ledger_imbalance ∷ Code.currency_mismatch
    ∷ Code.wallet_operation_denied ∷ []

-- `grpcCodes[Code(reason)]`, as the code that has this name.
abbrev pub find_code : String → List Code → Option Code
find_code reason [] = none
find_code reason (c ∷ cs) = if str_eq (code_string c) reason then some c else find_code reason cs

unfoldable pub code_from_grpc : GrpcCode → Code
code_from_grpc GrpcCode.invalid_argument = Code.invalid_argument
code_from_grpc GrpcCode.out_of_range = Code.invalid_argument
code_from_grpc GrpcCode.not_found = Code.not_found
code_from_grpc GrpcCode.already_exists = Code.already_exists
code_from_grpc GrpcCode.permission_denied = Code.permission_denied
code_from_grpc GrpcCode.unauthenticated = Code.unauthenticated
code_from_grpc GrpcCode.failed_precondition = Code.failed_precondition
code_from_grpc GrpcCode.unavailable = Code.unavailable
code_from_grpc GrpcCode.deadline_exceeded = Code.unavailable
code_from_grpc GrpcCode.resource_exhausted = Code.rate_limited
code_from_grpc _ = Code.internal

abbrev pub error_domain : String
error_domain = "openpay"

-- `Message`
unfoldable pub message : AppError → String
message e = elim e.code [ Code.internal ↦ "internal error" | _ ↦ e.msg ]

-- The status without its detail, and the detail.
abbrev pub bare_status : AppError → Status
bare_status e = record { code = grpc_code e.code; message = message e; details = [] }

abbrev pub info_of : AppError → ErrorInfo
info_of e = record { reason = code_string e.code; domain = error_domain }

-- `GRPCStatus`; `with_details` is the method of the gRPC library, `none` an error of it.
unfoldable pub grpc_status : (Status → ErrorInfo → Option Status) → AppError → Status
grpc_status with_details e = elim (with_details (bare_status e) (info_of e)) [
  | none ↦ bare_status e
  | some detailed ↦ detailed
]

-- The loop over the details: the last that names a known code of this domain counts.
unfoldable pub named_code : Code → List ErrorInfo → Code
named_code c [] = c
named_code c (info ∷ rest) =
    named_code
      (if str_eq info.domain error_domain
        then elim (find_code info.reason known_codes) [ none ↦ c | some named ↦ named ]
        else c)
      rest

-- `From`, of an error that carries a gRPC status; `text` is the error's own text.
unfoldable pub from_status : String → Status → AppError
from_status text s = elim s.code [
  | GrpcCode.unknown ↦ record { code = Code.internal; msg = text }
  | _ ↦ record { code = named_code (code_from_grpc s.code) s.details; msg = s.message }
]

detailed : AppError → Status
detailed e = record (bare_status e) { details = info_of e ∷ [] }

read_back :
    (text : String) (c : Code) (msg : String)
    → from_status text (detailed (record { code = c; msg = msg }))
      ≡ record { code = c; msg = message (record { code = c; msg = msg }) }
unfolding from_status detailed grpc_code message named_code code_from_grpc
read_back text Code.internal msg = refl
read_back text Code.invalid_argument msg = refl
read_back text Code.not_found msg = refl
read_back text Code.already_exists msg = refl
read_back text Code.permission_denied msg = refl
read_back text Code.unauthenticated msg = refl
read_back text Code.failed_precondition msg = refl
read_back text Code.unavailable msg = refl
read_back text Code.rate_limited msg = refl
read_back text Code.insufficient_balance msg = refl
read_back text Code.idempotency_key_conflict msg = refl
read_back text Code.idempotency_in_progress msg = refl
read_back text Code.ledger_imbalance msg = refl
read_back text Code.currency_mismatch msg = refl
read_back text Code.wallet_operation_denied msg = refl

grpc_code-not_ok : (c : Code) → grpc_code c ≢ GrpcCode.ok
unfolding grpc_code
grpc_code-not_ok Code.internal h = cc
grpc_code-not_ok Code.invalid_argument h = cc
grpc_code-not_ok Code.not_found h = cc
grpc_code-not_ok Code.already_exists h = cc
grpc_code-not_ok Code.permission_denied h = cc
grpc_code-not_ok Code.unauthenticated h = cc
grpc_code-not_ok Code.failed_precondition h = cc
grpc_code-not_ok Code.unavailable h = cc
grpc_code-not_ok Code.rate_limited h = cc
grpc_code-not_ok Code.insufficient_balance h = cc
grpc_code-not_ok Code.idempotency_key_conflict h = cc
grpc_code-not_ok Code.idempotency_in_progress h = cc
grpc_code-not_ok Code.ledger_imbalance h = cc
grpc_code-not_ok Code.currency_mismatch h = cc
grpc_code-not_ok Code.wallet_operation_denied h = cc

-- An error that is sent over gRPC and read back keeps its exact code, although several codes share one
-- gRPC code, and keeps the message that a caller may see. This is for a gRPC library whose
-- `WithDetails` appends the detail to the details of any status that is not OK, and `text` is whatever
-- text the error that is read has of its own.
pub from_status-grpc_status :
    (with_details : Status → ErrorInfo → Option Status) (text : String) (e : AppError)
    → ((s : Status) (info : ErrorInfo)
        → s.code ≢ GrpcCode.ok
        → with_details s info ≡ some (record s { details = s.details ++ info ∷ [] }))
    → from_status text (grpc_status with_details e) ≡ record { code = e.code; msg = message e }
unfolding grpc_status detailed
from_status-grpc_status with_details text e attaches =
    ap (λ o. from_status text (pick o))
      (attaches (bare_status e) (info_of e) (grpc_code-not_ok e.code))
    ∙ read_back text e.code e.msg
  where
    pick : Option Status → Status
    pick none = bare_status e
    pick (some s) = s
