-- ===== src/Server/Httpx.antt =====
-- pkg/server/httpx/httpx.go: how an error becomes the body of a response.
use iscp.Prelude.{String, Bool, true, false, Option}
use iscp.Crypto.{or_wrap}
use iscp.Errors.{Error, new, wrap, retryable, external, no_rows, Code, access_invalid, Result}

-- Details are left out: the error values carry none.
pub record ErrorResponse : Type 0 where
  pub type : String
  pub code : Code
  pub message : String
  pub is_retryable : Bool

abbrev response_of : Code → String → Bool → ErrorResponse
response_of code message is_retryable = record {
  type = "iscp.error.v2";
  code = code;
  message = message;
  is_retryable = is_retryable;
}

-- The body that WriteError writes: of an error from elsewhere, nothing is told.
unfoldable pub error_response : Error → ErrorResponse
error_response (new code message) = response_of code message false
error_response (wrap code message) = response_of code message false
error_response (retryable code message) = response_of code message true
error_response external = response_of access_invalid "request failed" false
error_response no_rows = response_of access_invalid "request failed" false

-- DecodeJSON: the decoder of encoding/json for a type, and its error.
unfoldable pub decode_json : {Raw A : Type 0} → (Raw → Option A) → Raw → Result A
decode_json decoder body = or_wrap (decoder body) external
