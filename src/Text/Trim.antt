-- ===== src/Text/Trim.antt =====
-- Laws of `trim`.
use postbud.Prelude.{◌≡◌, refl, false, [], ◌∷◌, arith, any}
use postbud.Text.{Str, is_whitespace, trim_start, trim_end, trim}

-- A text with no whitespace in it is its own trimming.
pub trim-of_no_whitespace : (s : Str) → any is_whitespace s ≡ false → trim s ≡ s
unfolding trim
trim-of_no_whitespace [] h = refl
trim-of_no_whitespace (c ∷ s) h = ground (arith, trim_end-of_no_whitespace s)
  where
    trim_end-of_no_whitespace : (s : Str) → any is_whitespace s ≡ false → trim_end s ≡ s
    trim_end-of_no_whitespace [] h = refl
    trim_end-of_no_whitespace (c ∷ s) h = ground (arith, trim_end-of_no_whitespace s)

trim_start_idem : (s : Str) → trim_start (trim_start s) ≡ trim_start s
unfolding trim_start
trim_start_idem [] = refl
trim_start_idem (c ∷ s) = ground (arith, trim_start_idem s)

trim_end_idem : (s : Str) → trim_end (trim_end s) ≡ trim_end s
unfolding trim_end
trim_end_idem [] = refl
trim_end_idem (c ∷ s) = ground (arith, trim_end_idem s)

trim_start-trim_end : (s : Str) → trim_start (trim_end s) ≡ trim_end (trim_start s)
unfolding trim_start trim_end
trim_start-trim_end [] = refl
trim_start-trim_end (c ∷ s) = ground (arith, trim_start-trim_end s)

pub trim_idem : (s : Str) → trim (trim s) ≡ trim s
unfolding trim
trim_idem s = rw (trim_start-trim_end (trim_start s), trim_end_idem) (rw trim_start_idem)
