-- ===== src/Text/Lines.antt =====
-- Laws of `lines`.
use postbud.Prelude.{
  ℕ, ◌≡◌, refl, sym, ap, ◌∙◌, false, [], ◌∷◌, ◌++◌, append_assoc, append-nil, arith, ◌==◌, is_empty,
}
use postbud.Text.{Str, contains_char, strip_carriage_return, lines_from, lines}

is_empty-append_cons : (a : Str) (c : ℕ) (b : Str) → is_empty (a ++ c ∷ b) ≡ false
is_empty-append_cons [] c b = refl
is_empty-append_cons (x ∷ a) c b = refl

strip_carriage_return-append :
    (a : Str) (c : ℕ) → (c == b'\r') ≡ false → strip_carriage_return (a ++ c ∷ []) ≡ a ++ c ∷ []
unfolding strip_carriage_return
strip_carriage_return-append [] c h = ground arith
strip_carriage_return-append (x ∷ a) c h =
    ground (arith, strip_carriage_return-append a c h, is_empty-append_cons a c [])

lines_from-append :
    (line a rest : Str)
    → contains_char b'\n' a ≡ false
    → lines_from line (a ++ b'\n' ∷ rest) ≡ strip_carriage_return (line ++ a) ∷ lines_from [] rest
unfolding lines_from
lines_from-append line [] rest h = rw append-nil refl
lines_from-append line (x ∷ a) rest h =
    let e : (x == b'\n') ≡ false = ground arith in
    let more = lines_from-append (line ++ x ∷ []) a rest (ground arith) in
    rw (e, lines_from)
      (more ∙ ap (λ l. strip_carriage_return l ∷ lines_from [] rest) (append_assoc line (x ∷ []) a))

-- A line that ends in something else than a carriage return is read whole.
pub lines-append :
    (a : Str) (c : ℕ) (rest : Str)
    → contains_char b'\n' (a ++ c ∷ []) ≡ false
    → (c == b'\r') ≡ false
    → lines (a ++ c ∷ b'\n' ∷ rest) ≡ (a ++ c ∷ []) ∷ lines rest
unfolding lines
lines-append a c rest n r =
    ap (lines_from []) (sym (append_assoc a (c ∷ []) (b'\n' ∷ rest)))
    ∙ lines_from-append [] (a ++ c ∷ []) rest n
    ∙ ap (λ x. x ∷ lines_from [] rest) (strip_carriage_return-append a c r)
