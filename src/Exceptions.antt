-- ===== src/Exceptions.antt =====
-- app/Exceptions/exceptions.go and Handler.go, and what the deferred function of
-- app/Http/Middleware/RecoverMiddleware.go does with a recovered value. http.StatusText and the text
-- of a value in a log line are arguments.
pub mod Rendered
pub mod Tests
use golite.Base.{
  ℕ, Bool, true, false, not, ◌&&◌, Option, none, some, List, [], ◌∷◌, ◌++◌, if◌then◌else◌, leb, Str,
  str, is_empty, Map, insert,
}
use golite.Validation.{Errors}

-- The wrapped error is the text of its Error method, the status a number that is not negative.
pub record HttpException : Type 0 where
  pub status : ℕ
  pub message : Str
  pub err : Option Str

-- What recover() gives, by the cases of Render: an *HttpException, a *validation.Exception, another
-- error with its text, another value with its text as "%v" formats it.
pub data Recovered : Type 0 where
  http_exception : HttpException → Recovered
  validation_exception : Errors → Recovered
  other_error : Str → Recovered
  other_value : Str → Recovered

-- A value of the body that Render hands to JSON.
pub data Field : Type 0 where
  message_field : Str → Field
  errors_field : Errors → Field

-- A call of Context.JSON: the status and the payload.
pub record Rendering : Type 0 where
  pub status : ℕ
  pub body : Map Field

unfoldable pub abort : ℕ → Str → HttpException
abort status message = record { status = status; message = message; err = none }

-- body["debug"], where there is a detail.
abbrev pub with_debug : Bool → Option Str → Map Field → Map Field
with_debug debug none body = body
with_debug debug (some detail) body =
    if debug then insert (str "debug") (message_field detail) body else body

abbrev server_error : Map Field
server_error = (str "error", message_field (str "Server Error")) ∷ []

unfoldable pub should_report : Recovered → Bool
should_report (http_exception e) = leb 500 e.status
should_report (validation_exception errors) = false
should_report (other_error text) = true
should_report (other_value text) = true

module _ (status_text : ℕ → Str) where
  -- HttpException.Error
  unfoldable pub error_text : HttpException → Str
  error_text e = if not (is_empty e.message) then e.message else status_text e.status

  unfoldable pub abort_with_default : ℕ → Str → HttpException
  unfolding abort
  abort_with_default status message =
      abort status (if is_empty message then status_text status else message)

  abbrev pub not_found : Str → HttpException
  not_found message = abort_with_default 404 message

  abbrev pub forbidden : Str → HttpException
  forbidden message = abort_with_default 403 message

  abbrev pub unauthorized : Str → HttpException
  unauthorized message = abort_with_default 401 message

  abbrev pub bad_request : Str → HttpException
  bad_request message = abort_with_default 400 message

  unfoldable pub render : Bool → Recovered → Rendering
  unfolding error_text
  render debug (http_exception e) = record {
    status = e.status;
    body = with_debug debug e.err ((str "error", message_field (error_text e)) ∷ []);
  }
  render debug (validation_exception errors) = record {
    status = 422;
    body =
        (str "message", message_field (str "the given data was invalid"))
        ∷ (str "errors", errors_field errors)
        ∷ [];
  }
  render debug (other_error text) = record {
    status = 500;
    body = with_debug debug (some text) server_error;
  }
  render debug (other_value text) = record {
    status = 500;
    body = with_debug debug (some text) server_error;
  }

  module _ (sprint : Recovered → Str) where
    -- The deferred function of Recover: the line it logs, if any, and the answer. `logs` is whether
    -- there is a logger.
    unfoldable pub recovered : Bool → Bool → Recovered → Option Str × Rendering
    unfolding should_report render
    recovered logs debug r = (
      if logs && should_report r then some (str "unhandled panic: " ++ sprint r) else none,
      render debug r,
    )
