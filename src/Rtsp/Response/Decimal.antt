-- ===== src/Rtsp/Response/Decimal.antt =====
-- Numbers that `msg_write_response` of src/rtsp.c prints are read back by `atoi`.
use native.Mathlib.Numerals.{unary_clauses}
use shairport_sync_for_openw.Prelude.{
  ℕ, zero, suc, ◌+◌, ◌*◌, ◌/◌, ◌%◌, ◌^◌, ◌<◌, ◌≡◌, ◌≢◌, inl, inr, ap, ◌∙◌, arith, List, [], ◌∷◌,
  ◌++◌, ltb, All, All-append, Bool-cases, length, length-append,
}
use shairport_sync_for_openw.Prelude.Int.{pos}
use shairport_sync_for_openw.Rtsp.Message.{atoi}
use shairport_sync_for_openw.Rtsp.Message.Lines.{IsPlain}
use shairport_sync_for_openw.Rtsp.Message.Numbers.{IsDigit, value_from, value-snoc, atoi_digits}
use shairport_sync_for_openw.Rtsp.Response.{print_digits, print_int}

print_digits-IsDigit : (fuel n : ℕ) → All IsDigit (print_digits fuel n)
unfolding print_digits
print_digits-IsDigit zero n = tt
print_digits-IsDigit (suc fuel) n = elim (Bool-cases (ltb n 10)) [
  | inl small ↦ rw small ((omega arith, ground arith), tt)
  | inr large ↦ rw large (
      All-append IsDigit (print_digits fuel (n / 10)) ((48 + n % 10) ∷ [])
        (print_digits-IsDigit fuel (n / 10)) ((omega arith, omega arith), tt))
]

print_digits_nonempty : (fuel n : ℕ) → print_digits (suc fuel) n ≢ []
unfolding print_digits
print_digits_nonempty fuel n h = elim (Bool-cases (ltb n 10)) [
  | inl small ↦
      let g : (48 + n) ∷ [] ≡ [] = rw small at h in
      let k : length ((48 + n) ∷ []) ≡ 0 = ap length g in omega arith
  | inr large ↦
      let g : print_digits fuel (n / 10) ++ (48 + n % 10) ∷ [] ≡ [] = rw large at h in
      let k : length (print_digits fuel (n / 10) ++ (48 + n % 10) ∷ []) ≡ 0 = ap length g in
      omega (arith, length-append (print_digits fuel (n / 10)) ((48 + n % 10) ∷ []))
]

power-suc : (fuel : ℕ) → 10 ^ suc fuel ≡ 10 * 10 ^ fuel
power-suc fuel = simp unary_clauses (omega arith)

value-print_digits : (fuel n : ℕ) → n < 10 ^ fuel → value_from 0 (print_digits fuel n) ≡ n
unfolding print_digits
value-print_digits zero n h = omega arith
value-print_digits (suc fuel) n h = elim (Bool-cases (ltb n 10)) [
  | inl small ↦ rw small (omega arith)
  | inr large ↦ rw large (
      value-snoc 0 (print_digits fuel (n / 10)) (48 + n % 10)
      ∙ omega (arith, value-print_digits fuel (n / 10) (omega (arith, power-suc fuel))))
]

pub atoi-print_int : (n : ℕ) → n < 10 ^ 10 → atoi (print_int (pos n)) ≡ pos n
unfolding print_int
atoi-print_int n h =
    atoi_digits (print_digits 10 n) (print_digits_nonempty 9 n) (print_digits-IsDigit 10 n)
    ∙ ap pos (value-print_digits 10 n h)

digits-IsPlain : (s : List ℕ) → All IsDigit s → All IsPlain s
digits-IsPlain [] h = tt
digits-IsPlain (x ∷ s) (p, h) = ((ground arith, ground arith, ground arith), digits-IsPlain s h)

pub print_int-IsPlain : (n : ℕ) → All IsPlain (print_int (pos n))
unfolding print_int
print_int-IsPlain n = digits-IsPlain (print_digits 10 n) (print_digits-IsDigit 10 n)
