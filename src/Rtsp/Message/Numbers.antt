-- ===== src/Rtsp/Message/Numbers.antt =====
-- What `atoi` reads from a text of digits.
use shairport_sync_for_openw.Prelude.{
  ℕ, ◌+◌, ◌-◌, ◌*◌, ◌≤◌, ◌≡◌, ◌≢◌, refl, ap, arith, true, false, List, [], ◌∷◌, ◌++◌, leb, ◌==◌,
  ◌&&◌, All,
}
use shairport_sync_for_openw.Prelude.Int.{pos}
use shairport_sync_for_openw.Rtsp.Message.{digits, signed_digits, skip_spaces, atoi, space}

abbrev pub IsDigit : ℕ → Type 0
IsDigit x = (48 ≤ x) × (x ≤ 57)

digit-true : (x : ℕ) → IsDigit x → (leb 48 x && leb x 57) ≡ true
digit-true x h = ground arith

-- The number that a text of digits stands for.
abbrev pub value_from : ℕ → List ℕ → ℕ
value_from a [] = a
value_from a (x ∷ s) = value_from (a * 10 + (x - 48)) s

digits-value : (a : ℕ) (s : List ℕ) → All IsDigit s → digits a s ≡ value_from a s
unfolding digits
digits-value a [] h = refl
digits-value a (x ∷ s) (p, h) = rw (digit-true x p) (digits-value (a * 10 + (x - 48)) s h)

pub value-snoc :
    (a : ℕ) (s : List ℕ) (c : ℕ) → value_from a (s ++ c ∷ []) ≡ value_from a s * 10 + (c - 48)
value-snoc a [] c = refl
value-snoc a (x ∷ s) c = value-snoc (a * 10 + (x - 48)) s c

pub atoi_digits : (s : List ℕ) → s ≢ [] → All IsDigit s → atoi s ≡ pos (value_from 0 s)
unfolding atoi skip_spaces signed_digits
atoi_digits [] some_digit h = absurd (some_digit refl)
atoi_digits (x ∷ s) some_digit (p, h) =
    let no_space : (x == space) ≡ false = ground arith in
    let no_minus : (x == 45) ≡ false = ground arith in
    let no_plus : (x == 43) ≡ false = ground arith in
    rw (no_space, no_minus, no_plus) (ap pos (digits-value 0 (x ∷ s) (p, h)))
