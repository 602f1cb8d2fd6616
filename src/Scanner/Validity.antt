-- ===== src/Scanner/Validity.antt =====
-- `ValidityStatus` of internal/scanner/scanner.go.
use certfinder.Base.Text.{codes}
use certfinder.Base.{Bytes, ltb, if◌then◌else◌}
use certfinder.Model.{Certificate, Time}

unfoldable pub validity_status : {X : Type 0} → Certificate X → Time → Bytes
validity_status c at =
    if ltb at c.not_before
    then codes "not-yet-valid"
    else if ltb c.not_after at
    then codes "expired"
    else codes "valid"
