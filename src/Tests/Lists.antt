-- ===== src/Tests/Lists.antt =====
-- Runs of the suppression list.
use postbud.Bounce.Ingest.{takes_out, is_suppressed-ingest, ingest-IsUnique}
use postbud.Bounce.{ingest}
use postbud.Dsn.{parse}
use postbud.Prelude.{◌≡◌, ◌||◌, any, arith}
use postbud.Suppression.Active.{IsUnique}
use postbud.Suppression.{is_suppressed}
use postbud.Tests.{platform, no_rows, notification}
use postbud.Text.{codes}

no_rows-IsUnique : IsUnique platform no_rows
no_rows-IsUnique tenant address = omega arith

is_suppressed-ingest_example :
    is_suppressed platform (ingest platform 240 no_rows notification).0 1 (codes "kari@ex.no") ≡ (
      is_suppressed platform no_rows 1 (codes "kari@ex.no")
      || any (takes_out platform 240 notification (codes "kari@ex.no")) (parse notification))
is_suppressed-ingest_example =
    is_suppressed-ingest platform 240 notification no_rows 1 (codes "kari@ex.no")

ingest-IsUnique_example : IsUnique platform (ingest platform 240 no_rows notification).0
ingest-IsUnique_example = ingest-IsUnique platform 240 notification no_rows no_rows-IsUnique
