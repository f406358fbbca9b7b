-- ===== src/Exceptions/Tests.antt =====
-- A run of Recover's answer to a failed request.
use golite.Base.{
  ℕ, true, false, ◌&&◌, none, some, ◌≡◌, if◌then◌else◌, is_some, leb, Str, str, lookup,
}
use golite.Exceptions.{Recovered, http_exception, recovered}
use golite.Exceptions.Rendered.{concealed, detail, as_field, recovered_lem}

abbrev status_text : ℕ → Str
status_text status = str "Service Unavailable"

abbrev sprint : Recovered → Str
sprint r = str "unavailable"

abbrev unavailable : Recovered
unavailable =
    http_exception (record { status = 503; message = str ""; err = some (str "dial tcp") })

recovered_example :
    ((recovered status_text sprint true false unavailable).1
      ≡ (recovered status_text sprint true false (concealed unavailable)).1)
    × (lookup (str "debug") (recovered status_text sprint true true unavailable).1.body
        ≡ (if true then as_field (detail unavailable) else none))
    × (is_some (recovered status_text sprint true true unavailable).0
        ≡ (true && leb 500 (recovered status_text sprint true true unavailable).1.status))
recovered_example = recovered_lem status_text sprint true true unavailable
