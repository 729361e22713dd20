-- ===== src/Silence/Signals.antt =====
-- When silence is a signal.
use postbud.Int.{ℤ, pos, negsuc}
use postbud.Prelude.{
  ℕ, ◌≤◌, ◌<◌, ◌≡◌, ◌↔◌, refl, not, Option, Bool, true, false, some, none, arith, leb,
  if◌then◌else◌,
}
use postbud.Text.{Str}
use postbud.Silence.{healthy, silent, age_text, too_old, is_silent, bounce_signal, dmarc_signal}

-- The bounce path is called silent exactly if nothing bounced although 500 messages or more were sent.
pub bounce_signal_iff :
    (sent bounces : ℕ)
    → is_silent (bounce_signal (pos sent) (pos bounces)) ≡ true ↔ ((bounces ≡ 0) × (500 ≤ sent))
unfolding bounce_signal
bounce_signal_iff sent bounces = (λ h. (ground arith, ground arith), λ h. ground (arith, h.0, h.1))

silent-if : (b : Bool) (x y : Str) → is_silent (if b then healthy x else silent y) ≡ not b
silent-if true x y = refl
silent-if false x y = refl

-- The reports are called silent exactly if there is one and the newest is more than 3 days old.
pub dmarc_signal_iff :
    (age : Option ℤ)
    → is_silent (dmarc_signal age) ≡ true ↔ ((days : ℕ) × ((age ≡ some (pos days)) × (3 < days)))
unfolding dmarc_signal
dmarc_signal_iff none = (λ h. absurd (ground arith), λ h. absurd (ground (arith, h.1.0)))
dmarc_signal_iff (some (pos days)) =
    rw (silent-if (leb days 3) (age_text (pos days)) (too_old (pos days)))
      (λ h. (days, (refl, ground arith)), λ h. old h.0 h.1.0 h.1.1)
  where
    old : (n : ℕ) → some (pos days) ≡ some (pos n) → 3 < n → not (leb days 3) ≡ true
    old n e l = ground (arith, e, l)
dmarc_signal_iff (some (negsuc n)) =
    (λ h. absurd (ground arith), λ h. absurd (ground (arith, h.1.0)))
