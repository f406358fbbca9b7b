-- ===== src/Exceptions/Rendered.antt =====
-- app/Exceptions/Handler.go: what an answer shows of a recovered value, and which values are logged.
use golite.Base.{
  ℕ, Bool, true, false, ◌&&◌, Option, none, some, [], ◌∷◌, ◌≡◌, refl, ap, ◌∙◌, if◌then◌else◌,
  is_some, leb, Str, str, ◌==◌, Map, lookup, insert,
}
use golite.Exceptions.{
  Field, Recovered, http_exception, validation_exception, other_error, other_value, message_field,
  should_report, error_text, render, recovered, with_debug,
}

-- The value without what a client must not see in production.
abbrev pub concealed : Recovered → Recovered
concealed (http_exception e) = http_exception (record e { err = none })
concealed (validation_exception errors) = validation_exception errors
concealed (other_error text) = other_error []
concealed (other_value text) = other_error []

-- The internal detail of a value.
abbrev pub detail : Recovered → Option Str
detail (http_exception e) = e.err
detail (validation_exception errors) = none
detail (other_error text) = some text
detail (other_value text) = some text

abbrev pub as_field : Option Str → Option Field
as_field none = none
as_field (some text) = some (message_field text)

hidden : (o : Option Str) (body : Map Field) → with_debug false o body ≡ body
hidden none body = refl
hidden (some text) body = refl

debug_field :
    (debug : Bool) (o : Option Str) (text : Str)
    → lookup (str "debug") (with_debug debug o ((str "error", message_field text) ∷ []))
      ≡ (if debug then as_field o else none)
unfolding lookup ◌==◌ insert
debug_field true none text = refl
debug_field false none text = refl
debug_field true (some err) text = refl
debug_field false (some err) text = refl

module _ (status_text : ℕ → Str) (sprint : Recovered → Str) where
  render-concealed :
      (r : Recovered) → render status_text false r ≡ render status_text false (concealed r)
  unfolding render error_text
  render-concealed (http_exception e) =
      rw (hidden e.err ((str "error", message_field (error_text status_text e)) ∷ [])) refl
  render-concealed (validation_exception errors) = refl
  render-concealed (other_error text) = refl
  render-concealed (other_value text) = refl

  render-debug :
      (debug : Bool) (r : Recovered)
      → lookup (str "debug") (render status_text debug r).body
        ≡ (if debug then as_field (detail r) else none)
  unfolding render lookup ◌==◌ insert
  render-debug debug (http_exception e) = debug_field debug e.err (error_text status_text e)
  render-debug true (validation_exception errors) = refl
  render-debug false (validation_exception errors) = refl
  render-debug true (other_error text) = refl
  render-debug false (other_error text) = refl
  render-debug true (other_value text) = refl
  render-debug false (other_value text) = refl

  should_report-render :
      (debug : Bool) (r : Recovered) → should_report r ≡ leb 500 (render status_text debug r).status
  unfolding should_report render
  should_report-render debug (http_exception e) = refl
  should_report-render debug (validation_exception errors) = refl
  should_report-render debug (other_error text) = refl
  should_report-render debug (other_value text) = refl

  logged : (b : Bool) (s : Str) → is_some (if b then some s else none) ≡ b
  logged true s = refl
  logged false s = refl

  -- Without debug the answer to a recovered value is the answer to it without its internal detail:
  -- without the wrapped error of an HttpException, and the same for any error or value of another
  -- kind. With debug the field "debug" is that detail, without debug there is none. Where there is
  -- a logger, a value is logged exactly when its answer has a status of 500 or more.
  pub recovered_lem :
      (logs debug : Bool) (r : Recovered)
      → ((recovered status_text sprint logs false r).1
          ≡ (recovered status_text sprint logs false (concealed r)).1)
        × (lookup (str "debug") (recovered status_text sprint logs debug r).1.body
            ≡ (if debug then as_field (detail r) else none))
        × (is_some (recovered status_text sprint logs debug r).0
            ≡ (logs && leb 500 (recovered status_text sprint logs debug r).1.status))
  unfolding recovered
  recovered_lem logs debug r = (
    render-concealed r,
    render-debug debug r,
    logged (logs && should_report r) _ ∙ ap (λ b. logs && b) (should_report-render debug r),
  )
