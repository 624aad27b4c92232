-- ===== src/Direct/Client.antt =====
-- direct.py, `DirectClient`: what each end of an HTTP exchange becomes.
use homekey_household.Prelude.{ℕ, leb, ◌==◌, if◌then◌else◌}
use homekey_household.Models.Json.{Json, null}
use homekey_household.Models.Errors.{
  Result, ok, raise, auth_failed, tls_unavailable, protocol_error, fingerprint_mismatch,
  transport_failed, unexpected,
}

-- How `session.request` ends: a response with its status and what its `json()` gives, or one of the
-- exceptions, in the order in which the source catches them.
pub data Exchange : Type 0 where
  response : ℕ → Result Json → Exchange
  certificate_error ssl_error client_error timed_out other_error : Exchange

unfoldable pub request : Exchange → Result Json
request (Exchange.response status body) =
    if status == 401
    then raise auth_failed
    else if status == 503
    then raise tls_unavailable
    else if status == 404
    then raise protocol_error
    else if leb 400 status
    then raise transport_failed
    else body
request Exchange.certificate_error = raise fingerprint_mismatch
request Exchange.ssl_error = raise transport_failed
request Exchange.client_error = raise transport_failed
request Exchange.timed_out = raise transport_failed
request Exchange.other_error = raise unexpected

-- `except DirectProtocolError: return None`
without_guest : Result Json → Result Json
without_guest (raise protocol_error) = ok null
without_guest r = r

-- `async_get_guest`; None is `null`.
unfoldable pub get_guest : Exchange → Result Json
unfolding request without_guest
get_guest e = without_guest (request e)
