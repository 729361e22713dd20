-- ===== src/Retry.antt =====
-- crates/postbud-core/src/retry.rs: the delays between the attempts, in seconds.
use postbud.Prelude.{ℕ, ◌+◌, ◌*◌, List, [], ◌∷◌, Option, get_elem?}

abbrev pub minute : ℕ
minute = 60

abbrev pub hour : ℕ
hour = 60 * minute

abbrev pub schedule : List ℕ
schedule =
    minute
    ∷ (5 * minute)
    ∷ (15 * minute)
    ∷ hour
    ∷ (3 * hour)
    ∷ (6 * hour)
    ∷ (12 * hour)
    ∷ (24 * hour)
    ∷ (24 * hour)
    ∷ []

-- `none`: the message is dead.
unfoldable pub backoff : ℕ → Option ℕ
backoff attempts_made = get_elem? schedule attempts_made

abbrev pub sum : List ℕ → ℕ
sum [] = 0
sum (x ∷ xs) = x + sum xs

unfoldable pub total_window : ℕ
total_window = sum schedule
