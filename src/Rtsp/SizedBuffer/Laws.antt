-- ===== src/Rtsp/SizedBuffer/Laws.antt =====
-- The buffer is a queue of bytes that never holds more than it has room for.
use shairport_sync_for_openw.Prelude.{
  ℕ, ◌≤◌, ◌<◌, ◌≡◌, inl, inr, refl, ap, ◌∙◌, true, false, List, [], ◌∷◌, ◌++◌, ltb, leb, take,
  length, length-append, length-drop, length-take, append-nil, min, take-append-drop, arith,
  Bool-cases,
}
use shairport_sync_for_openw.Prelude.Int.{ℤ, pos, negsuc}
use shairport_sync_for_openw.Rtsp.SizedBuffer.{SizedBuffer, buf_add, buf_drain, buf_remove}

abbrev pub IsValid : SizedBuffer → Type 0
IsValid b = length b.contents ≤ b.size

add-IsValid : (b : SizedBuffer) (new : List ℕ) → IsValid b → IsValid (buf_add b new)
unfolding buf_add
add-IsValid b new h = let e = length-append b.contents new in ground arith

drain-IsValid : (b : SizedBuffer) (n : ℤ) → IsValid b → IsValid (buf_drain b n)
unfolding buf_drain
drain-IsValid b (negsuc n) h = omega arith
drain-IsValid b (pos n) h = let e = length-drop n b.contents in ground arith

-- Adding, draining and removing keep the contents within the room.
pub buf_ops-IsValid :
    (b : SizedBuffer) (new : List ℕ) (n : ℤ) (count : ℕ)
    → IsValid b
    → IsValid (buf_add b new) × IsValid (buf_drain b n) × IsValid (buf_remove b count).1
unfolding buf_remove
buf_ops-IsValid b new n count h = (add-IsValid b new h, drain-IsValid b n h, drain-IsValid b _ h)

take-all : (xs : List ℕ) → take (length xs) xs ≡ xs
take-all [] = refl
take-all (x ∷ xs) = ap (λ z. x ∷ z) (take-all xs)

-- What is removed, followed by what is left, is what was there; no more than asked for is removed,
-- and less only if there is less.
pub buf_remove_lem :
    (b : SizedBuffer) (count : ℕ)
    → (let (out, b') = buf_remove b count in
        (out ++ b'.contents ≡ b.contents) × (length out ≡ min count (length b.contents)))
unfolding buf_remove buf_drain
buf_remove_lem b count = elim (Bool-cases (ltb count (length b.contents))) [
  | inl t ↦
      let f : leb (length b.contents) count ≡ false = ground arith in
      let g : count < length b.contents = ground arith in
      rw (t, f) (take-append-drop count b.contents, omega (arith, length-take count b.contents))
  | inr t ↦
      let f : leb (length b.contents) (length b.contents) ≡ true = ground arith in
      let g : length b.contents ≤ count = ground arith in
      rw (t, f)
        (
          append-nil (take (length b.contents) b.contents) ∙ take-all b.contents,
          omega (arith, length-take (length b.contents) b.contents),
        )
]
