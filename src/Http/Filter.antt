-- ===== src/Http/Filter.antt =====
-- AllExceptionsFilter (src/common/filters/all-exceptions.filter.ts).
use flash_core.Common.{ℕ, Bool, Option, none, some, if◌then◌else◌}
use flash_core.Http.Errors.{
  Code, DomainError, declared, Level, level_of, log_level, Details, details,
}

-- The text of `message`: a class's own, one that came with the exception, or one of the two that
-- the filter writes.
pub data Message : Type 0 where
  of_domain : DomainError → Message
  given : ℕ → Message
  too_large internal : Message

-- What `getResponse` of a framework's exception gives: a text, or an object whose fields go over
-- the defaults.
pub data Payload : Type 0 where
  text : ℕ → Payload
  fields : Option Code → Option ℕ → Option ℕ → Payload

-- A thrown value: ours, an HttpException with its status, payload and message, any other object by
-- its `type` (whether it is `entity.too.large`), whether `status` is a number, and what else it
-- carries, or no object at all.
pub data Exception : Type 0 where
  domain : DomainError → Exception
  http : ℕ → Payload → ℕ → Exception
  object : Bool → Bool → ℕ → Exception
  primitive : ℕ → Exception

pub record ErrorBody : Type 0 where
  pub code : Code
  pub message : Message
  pub details : Option Details
  -- the other fields of an HttpException's payload
  pub more : Option ℕ

pub record Described : Type 0 where
  pub status : ℕ
  pub body : ErrorBody

abbrev plain : ℕ → Code → Message → Described
plain status code message = record {
  status = status;
  body = record { code = code; message = message; details = none; more = none };
}

-- `asBodyParserError`.
unfoldable pub as_body_parser_error : Bool → Bool → Option Described
as_body_parser_error is_large has_status =
    if has_status
    then (if is_large then some (plain 413 Code.payload_too_large Message.too_large) else none)
    else none

abbrev or_code : Code → Option Code → Code
or_code code none = code
or_code code (some own) = own

abbrev or_message : ℕ → Option ℕ → ℕ
or_message message none = message
or_message message (some own) = own

unfoldable pub describe_http : ℕ → ℕ → Payload → Described
describe_http status message (Payload.text own) = plain status Code.http_error (Message.given own)
describe_http status message (Payload.fields code own more) = record {
  status = status;
  body = record {
    code = or_code Code.http_error code;
    message = Message.given (or_message message own);
    details = none;
    more = more;
  };
}

abbrev pub internal_answer : Described
internal_answer = plain 500 Code.internal_error Message.internal

abbrev or_internal : Option Described → Described
or_internal none = internal_answer
or_internal (some d) = d

unfoldable pub describe : Exception → Described
unfolding declared details as_body_parser_error describe_http
describe (Exception.domain e) = record {
  status = (declared e).http_status;
  body = record {
    code = (declared e).code;
    message = Message.of_domain e;
    details = details e;
    more = none;
  };
}
describe (Exception.http status payload message) = describe_http status message payload
describe (Exception.object is_large has_status carried) =
    or_internal (as_body_parser_error is_large has_status)
describe (Exception.primitive value) = internal_answer

unfoldable pub level : Exception → Level
unfolding log_level level_of describe
level (Exception.domain e) = log_level e
level (Exception.http status payload message) =
    level_of (describe (Exception.http status payload message)).status
level (Exception.object is_large has_status carried) =
    level_of (describe (Exception.object is_large has_status carried)).status
level (Exception.primitive value) = level_of (describe (Exception.primitive value)).status

-- `catch`: what the client gets, and the log line's level.
pub record Caught : Type 0 where
  pub answer : Described
  pub correlation_id : ℕ
  pub logged : Level

unfoldable pub catch_exception : ℕ → Exception → Caught
unfolding describe level
catch_exception correlation_id exception = record {
  answer = describe exception;
  correlation_id = correlation_id;
  logged = level exception;
}
