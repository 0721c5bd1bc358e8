-- ===== src/Rtsp/Message/Lines.antt =====
-- How `nextline` cuts a buffer into lines.
use shairport_sync_for_openw.Prelude.{
  ℕ, suc, ◌<◌, ◌≤◌, ◌≡◌, inl, inr, refl, ap, false, Option, none, some, List, [], ◌∷◌, ◌++◌, ◌==◌,
  arith, Bool-cases, none≢some, some_inj, All, length,
}
use shairport_sync_for_openw.Rtsp.Message.{cr, lf, push, after_cr, nextline, c_string}

-- A character that does not end a line or a string.
abbrev pub IsPlain : ℕ → Type 0
IsPlain x = ((x == cr) ≡ false) × ((x == lf) ≡ false) × ((x == 0) ≡ false)

-- A line of such characters that ends with a carriage return and a line feed is the next line, and
-- what follows them is left.
pub nextline_crlf : (l r : List ℕ) → All IsPlain l → nextline (l ++ cr ∷ lf ∷ r) ≡ some (l, r)
unfolding nextline after_cr push
nextline_crlf [] r h = refl
nextline_crlf (x ∷ l) r (p, h) = rw (p.0, p.1, nextline_crlf l r h) refl

-- The same line with a line feed alone.
pub nextline-lf : (l r : List ℕ) → All IsPlain l → nextline (l ++ lf ∷ r) ≡ some (l, r)
unfolding nextline after_cr push
nextline-lf [] r h = refl
nextline-lf (x ∷ l) r (p, h) = rw (p.0, p.1, nextline-lf l r h) refl

pub nextline-empty : nextline [] ≡ none
unfolding nextline
nextline-empty = refl

pub c_string_plain : (l : List ℕ) → All IsPlain l → c_string l ≡ l
unfolding c_string
c_string_plain [] h = refl
c_string_plain (x ∷ l) (p, h) = rw (p.2, c_string_plain l h) refl

-- A buffer that ends between the carriage return and the line feed gives the line at once, and the
-- line feed that arrives later is taken for an empty line.
pub nextline_split :
    (l r : List ℕ)
    → All IsPlain l
    → (nextline (l ++ cr ∷ []) ≡ some (l, [])) × (nextline (lf ∷ r) ≡ some ([], r))
unfolding nextline after_cr push
nextline_split [] r h = (refl, refl)
nextline_split (x ∷ l) r (p, h) = (rw (p.0, p.1, (nextline_split l r h).0) refl, refl)

push-some :
    (x : ℕ) (o : Option (List ℕ × List ℕ)) (l r : List ℕ)
    → push x o ≡ some (l, r)
    → (k : List ℕ) × (o ≡ some (k, r))
unfolding push
push-some x none l r h = absurd (none≢some h)
push-some x (some (k, s)) l r h =
    let q : s ≡ r = ap (λ p. p.1) (some_inj h) in (k, ap (λ t. some (k, t)) q)

length-after_cr : (r : List ℕ) → length (after_cr r) ≤ length r
unfolding after_cr
length-after_cr [] = omega arith
length-after_cr (x ∷ r) = elim (Bool-cases (x == lf)) [
  | inl e ↦ rw e (omega arith)
  | inr e ↦ rw e (omega arith)
]

-- A line takes at least one character out of the buffer.
pub nextline_shorter : (b l r : List ℕ) → nextline b ≡ some (l, r) → length r < length b
unfolding nextline
nextline_shorter [] l r h = absurd (none≢some h)
nextline_shorter (x ∷ b) l r h = elim (Bool-cases (x == cr)) [
  | inl e ↦
      let g : some ([], after_cr b) ≡ some (l, r) = rw e at h in
      let q : after_cr b ≡ r = ap (λ p. p.1) (some_inj g) in
      rw⁻¹ q
        ((let k : length (after_cr b) < suc (length b) = omega (arith, length-after_cr b) in k))
  | inr e ↦ elim (Bool-cases (x == lf)) [
    | inl f ↦
        let g : some ([], b) ≡ some (l, r) = rw (e, f) at h in
        let q : b ≡ r = ap (λ p. p.1) (some_inj g) in rw⁻¹ q (omega arith)
    | inr f ↦
        let g : push x (nextline b) ≡ some (l, r) = rw (e, f) at h in
        let (k, q) = push-some x (nextline b) l r g in omega (arith, nextline_shorter b k r q)
  ]
]
