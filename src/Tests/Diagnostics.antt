-- ===== src/Tests/Diagnostics.antt =====
-- A report at a concrete value.
use homekey_household.Prelude.{codes, [], ◌≡◌}
use homekey_household.Models.Json.{Json, str, obj, end, field}
use homekey_household.Diagnostics.{redact}
use homekey_household.Diagnostics.Secrecy.{Alike, redact_hides}

abbrev secretive : Json
secretive =
    obj
      (field (codes "title") (str (codes "Gate")) (field (codes "Password") (str (codes "p")) end))

redact_hides_example :
    ((w : Json) → Alike [] secretive w → redact secretive [] ≡ redact w [])
    × Alike [] secretive (redact secretive [])
    × (redact (redact secretive []) [] ≡ redact secretive [])
redact_hides_example = redact_hides secretive []
