-- ===== src/Silence.antt =====
-- crates/postbud-core/src/silence.rs: whether the absence of bounces and of reports means anything.
pub mod Signals
use postbud.Int.{ℤ, pos, negsuc}
use postbud.Prelude.{
  ℕ, suc, Bool, true, false, not, ◌++◌, Option, none, some, ltb, leb, ◌==◌, if◌then◌else◌,
}
use postbud.Text.{Str, codes, decimal}

pub data Signal : Type 0 where
  healthy : Str → Signal
  inconclusive : Str → Signal
  silent : Str → Signal

abbrev pub is_silent : Signal → Bool
is_silent (silent detail) = true
is_silent _ = false

-- How a signed number is printed.
abbrev pub number : ℤ → Str
number (pos n) = decimal n
number (negsuc n) = codes "-" ++ decimal (suc n)

abbrev pub is_positive : ℤ → Bool
is_positive (pos n) = ltb 0 n
is_positive (negsuc n) = false

-- Below a natural number, and at most one.
abbrev pub below : ℤ → ℕ → Bool
below (pos n) k = ltb n k
below (negsuc n) k = true

abbrev pub at_most : ℤ → ℕ → Bool
at_most (pos n) k = leb n k
at_most (negsuc n) k = true

abbrev pub carrying : ℤ → Str
carrying bounces = number bounces ++ codes " recorded — the DSN path is carrying"

abbrev pub too_few : ℤ → Str
too_few sent =
    number sent
    ++ codes
        " sent; below 500 a clean sheet is ordinary, so this cannot yet tell a working path from a broken one"

abbrev pub no_bounce : ℤ → Str
no_bounce sent =
    number sent
    ++ codes
        " sent and not one bounce recorded. At this volume that is far more likely to be a broken return path than perfect addresses — check that the envelope sender resolves to a mailbox routed into the bounce pipe"

unfoldable pub bounce_signal : ℤ → ℤ → Signal
bounce_signal sent bounces =
    if is_positive bounces
    then healthy (carrying bounces)
    else if below sent 500
    then inconclusive (too_few sent)
    else silent (no_bounce sent)

abbrev pub no_reports : Str
no_reports =
    codes
      "no reports have ever arrived; the mailbox poller may not be configured, or no receiver has been asked to report yet"

abbrev pub age_text : ℤ → Str
age_text (pos n) =
    if n == 0
    then codes "newest report arrived today"
    else if n == 1
    then codes "newest report arrived yesterday"
    else codes "newest report is " ++ (decimal n ++ codes " days old")
age_text (negsuc n) = codes "newest report is " ++ (number (negsuc n) ++ codes " days old")

abbrev pub too_old : ℤ → Str
too_old age =
    codes "newest report is "
    ++ (number age
        ++ codes
            " days old. Receivers send daily, so a gap this long is the mailbox, the credentials or the poller rather than the receivers")

unfoldable pub dmarc_signal : Option ℤ → Signal
dmarc_signal none = inconclusive no_reports
dmarc_signal (some age) = if at_most age 3 then healthy (age_text age) else silent (too_old age)
