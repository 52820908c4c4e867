-- ===== src/Rpc.antt =====
-- Errors between the services: internal/shared/rpcx/errors.go. A gRPC status is its code and its
-- message; `status.Error` with the code OK is no error.
pub mod Errors
mod Examples
use backend_go.Prelude.{
  ℕ, Bool, true, false, Option, none, some, List, [], ◌∷◌, ◌++◌, Text, codes, text_eq, trim_space,
  ◌==◌, if◌then◌else◌,
}

-- the codes that the source names, and all others by their number
pub data Code : Type 0 where
  ok invalid_argument unauthenticated permission_denied not_found already_exists resource_exhausted
        unavailable internal :
      Code
  other : ℕ → Code

pub record Status : Type 0 where
  pub code : Code
  pub message : Text

-- what `status.FromError` may say of an error
pub data Error : Type 0 where
  absent foreign : Error
  status : Status → Error

abbrev pub or_text : Text → Text → Text
or_text [] d = d
or_text (c ∷ s) d = c ∷ s

abbrev pub is_ok : Code → Bool
is_ok Code.ok = true
is_ok _ = false

abbrev pub status_error : Code → Text → Error
status_error code message =
    if is_ok code then absent else status (record { code = code; message = message })

unfoldable pub new_error : Code → Text → Text → Error
new_error code reason msg = status_error code (
    or_text (trim_space reason) (codes "internal_error")
    ++ b'|' ∷ or_text (trim_space msg) (codes "internal error"))

-- strings.SplitN(s, "|", 2): the part before the first '|' and the one after it, if there is one
abbrev pub cut : Text → Option (Text × Text)
cut [] = none
cut (c ∷ s) =
    let rest = cut s in
    if c == b'|'
    then some ([], s)
    else elim rest [ none ↦ none | some parts ↦ some (c ∷ parts.0, parts.1) ]

abbrev pub default_reason : Code → Text
default_reason Code.invalid_argument = codes "invalid_request"
default_reason Code.unauthenticated = codes "unauthorized"
default_reason Code.permission_denied = codes "forbidden"
default_reason Code.not_found = codes "not_found"
default_reason Code.already_exists = codes "conflict"
default_reason Code.resource_exhausted = codes "rate_limited"
default_reason Code.unavailable = codes "service_unavailable"
default_reason _ = codes "internal_error"

abbrev pub http_from_grpc : Code → ℕ
http_from_grpc Code.invalid_argument = 400
http_from_grpc Code.unauthenticated = 401
http_from_grpc Code.permission_denied = 403
http_from_grpc Code.not_found = 404
http_from_grpc Code.already_exists = 409
http_from_grpc Code.resource_exhausted = 429
http_from_grpc Code.unavailable = 503
http_from_grpc _ = 500

abbrev pub reason_and_message : Text → Option (Text × Text) → Text × Text
reason_and_message message none = (codes "internal_error", message)
reason_and_message message (some parts) = (trim_space parts.0, trim_space parts.1)

unfoldable pub parse_error : Error → Code × Text × Text
parse_error absent = (Code.ok, [], [])
parse_error foreign = (Code.internal, codes "internal_error", codes "internal error")
parse_error (status st) =
    let (reason, msg) = reason_and_message st.message (cut st.message) in
    (st.code, or_text reason (default_reason st.code), or_text msg (codes "internal error"))
