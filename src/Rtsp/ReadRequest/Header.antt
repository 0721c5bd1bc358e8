-- ===== src/Rtsp/ReadRequest/Header.antt =====
-- A request that is written out is read back, and what a header does that arrives in two pieces.
use shairport_sync_for_openw.Prelude.{
  ℕ, zero, suc, ◌<◌, ◌≡◌, inl, inr, refl, ap, ◌∙◌, Option, none, some, List, [], ◌∷◌, ◌++◌, arith,
  Option-cases, All, All-append, length, length-append,
}
use shairport_sync_for_openw.Prelude.Int.{ℤ, pos, negsuc}
use shairport_sync_for_openw.Rtsp.Message.{
  Message, message, cr, lf, space, colon, protocol, content_length, nextline, c_string,
  msg_add_header, msg_get_header, msg_handle_line, size_of,
}
use shairport_sync_for_openw.Rtsp.Message.Lines.{
  IsPlain, nextline_crlf, nextline_shorter, c_string_plain,
}
use shairport_sync_for_openw.Rtsp.Message.Parse.{
  IsName, IsWord, Word, letters, request_text, request_line-text, header_text, handle_header,
  handle_empty,
}
use shairport_sync_for_openw.Rtsp.ReadRequest.{
  Lines, wants_more, complete, no_message, after_line, take_line, lines, read_lines,
}

lines-take_line :
    (fuel : ℕ) (m : Option Message) (buf : List ℕ)
    → lines (suc fuel) m buf ≡ take_line (lines fuel) m buf (nextline buf)
unfolding lines
lines-take_line fuel m buf = refl

lines-none :
    (fuel : ℕ) (m : Option Message) (buf : List ℕ)
    → nextline buf ≡ none
    → lines (suc fuel) m buf ≡ some (wants_more m buf)
unfolding take_line
lines-none fuel m buf e = lines-take_line fuel m buf ∙ ap (take_line (lines fuel) m buf) e

lines-some :
    (fuel : ℕ) (m : Option Message) (buf l r : List ℕ)
    → nextline buf ≡ some (l, r)
    → lines (suc fuel) m buf
      ≡ after_line
          (msg_handle_line m (c_string l))
          r
          (lines fuel (msg_handle_line m (c_string l)).0 r)
unfolding take_line
lines-some fuel m buf l r e = lines-take_line fuel m buf ∙ ap (take_line (lines fuel) m buf) e

-- The same for a line of plain characters, of which `msg_handle_line` makes `k`.
lines-plain :
    (fuel : ℕ) (m : Option Message) (buf l r : List ℕ) (k : Option Message × ℤ)
    → All IsPlain l
    → nextline buf ≡ some (l, r)
    → msg_handle_line m l ≡ k
    → lines (suc fuel) m buf ≡ after_line k r (lines fuel k.0 r)
lines-plain fuel m buf l r k h e q =
    lines-some fuel m buf l r e
    ∙ ap (λ z. after_line z r (lines fuel z.0 r)) (ap (msg_handle_line m) (c_string_plain l h) ∙ q)

after_line_total :
    (h : Option Message × ℤ) (next : List ℕ) (r : Lines) (o : Option Lines)
    → o ≡ some r
    → (t : Lines) × (after_line h next o ≡ some t)
unfolding after_line
after_line_total (none, size) next r o e = (no_message, refl)
after_line_total (some m, pos n) next r o e = (complete m n next, refl)
after_line_total (some m, negsuc k) next r o e = (r, e)

-- Fuel of one more than the length of the buffer is enough.
pub lines_total :
    (fuel : ℕ) (m : Option Message) (buf : List ℕ)
    → length buf < fuel
    → (r : Lines) × (lines fuel m buf ≡ some r)
lines_total zero m buf h = absurd (omega arith)
lines_total (suc fuel) m buf h = elim (Option-cases (nextline buf)) [
  | inl e ↦ (wants_more m buf, lines-none fuel m buf e)
  | inr ((line, next), e) ↦
      let k = msg_handle_line m (c_string line) in
      let (r, q) = lines_total fuel k.0 next (omega (arith, nextline_shorter buf line next e)) in
      let (t, z) = after_line_total k next r (lines fuel k.0 next) q in
      (t, lines-some fuel m buf line next e ∙ z)
]

-- A header to write out.
pub record Header : Type 0 where
  pub name : List ℕ
  pub value : List ℕ
  pub name_IsName : All IsName name
  pub value_IsPlain : All IsPlain value

abbrev pub text : Header → List ℕ
text h = header_text (h.name, h.value)

abbrev pub write_headers : List Header → List ℕ → List ℕ
write_headers [] rest = cr ∷ lf ∷ rest
write_headers (h ∷ hs) rest = text h ++ cr ∷ lf ∷ write_headers hs rest

abbrev pub write_request : Word → Word → List Header → List ℕ → List ℕ
write_request method path hs rest = request_text method path ++ cr ∷ lf ∷ write_headers hs rest

abbrev pub add_headers : Message → List Header → Message
add_headers m [] = m
add_headers m (h ∷ hs) = add_headers (msg_add_header h.name h.value m) hs

pub IsPlain-of_name : (l : List ℕ) → All IsName l → All IsPlain l
IsPlain-of_name [] h = tt
IsPlain-of_name (x ∷ l) (p, h) = (p.0, IsPlain-of_name l h)

IsPlain-of_word : (l : List ℕ) → All IsWord l → All IsPlain l
IsPlain-of_word [] h = tt
IsPlain-of_word (x ∷ l) (p, h) = (p.0, IsPlain-of_word l h)

text-IsPlain : (h : Header) → All IsPlain (text h)
text-IsPlain h =
    All-append IsPlain h.name (colon ∷ space ∷ h.value) (IsPlain-of_name h.name h.name_IsName)
      ((refl, refl, refl), ((refl, refl, refl), h.value_IsPlain))

pub lines-headers :
    (hs : List Header) (fuel n : ℕ) (m : Message) (rest : List ℕ)
    → length hs < fuel
    → size_of (msg_get_header content_length (add_headers m hs)) ≡ pos n
    → lines fuel (some m) (write_headers hs rest) ≡ some (complete (add_headers m hs) n rest)
unfolding after_line
lines-headers hs zero n m rest h e = absurd (omega arith)
lines-headers [] (suc fuel) n m rest h e =
    lines-plain fuel (some m) (cr ∷ lf ∷ rest) [] rest (some m, pos n) tt (nextline_crlf [] rest tt)
      (handle_empty m ∙ ap (λ z. (some m, z)) e)
lines-headers (x ∷ hs) (suc fuel) n m rest h e =
    let m' = msg_add_header x.name x.value m in
    lines-plain fuel (some m) (write_headers (x ∷ hs) rest) (text x) (write_headers hs rest)
      (some m', negsuc 0) (text-IsPlain x)
      (nextline_crlf (text x) (write_headers hs rest) (text-IsPlain x))
      (handle_header x.name x.value m x.name_IsName)
    ∙ lines-headers hs fuel n m' rest (omega arith) e

pub length-headers : (hs : List Header) (rest : List ℕ) → length hs < length (write_headers hs rest)
length-headers [] rest = omega arith
length-headers (h ∷ hs) rest =
    omega (arith, length-append (text h) (cr ∷ lf ∷ write_headers hs rest), length-headers hs rest)

protocol-IsPlain : All IsPlain protocol
protocol-IsPlain = (
  (refl, refl, refl),
  (
    (refl, refl, refl),
    (
      (refl, refl, refl),
      (
        (refl, refl, refl),
        ((refl, refl, refl), ((refl, refl, refl), ((refl, refl, refl), ((refl, refl, refl), tt)))),
      ),
    ),
  ),
)

request-IsPlain : (method path : Word) → All IsPlain (request_text method path)
request-IsPlain method path =
    let plain = λ (w : Word). IsPlain-of_word (letters w) (w.first_IsWord, w.others_IsWord) in
    All-append IsPlain (letters method) (space ∷ (letters path ++ space ∷ protocol)) (plain method)
      (
        (refl, refl, refl),
        All-append IsPlain (letters path) (space ∷ protocol) (plain path)
            ((refl, refl, refl), protocol-IsPlain),
      )

-- A request that is written out is read back: method and path, cut to 15 and 255 characters, all
-- headers in their order up to the sixteenth, the length of the content, and what follows the header.
pub lines_written :
    (method path : Word) (hs : List Header) (n : ℕ) (rest : List ℕ)
    → let m = add_headers (message (letters method) (letters path)) hs in
      size_of (msg_get_header content_length m) ≡ pos n
      → read_lines none (write_request method path hs rest) ≡ some (complete m n rest)
unfolding after_line
lines_written method path hs n rest e =
    let b = write_request method path hs rest in
    let t = request_text method path in
    let m = message (letters method) (letters path) in
    let r = write_headers hs rest in
    lines-plain (length b) none b t r (some m, negsuc 0) (request-IsPlain method path)
      (nextline_crlf t r (request-IsPlain method path)) (request_line-text method path)
    ∙ lines-headers hs (length b) n m rest
        (omega (arith, length-append t (cr ∷ lf ∷ r), length-headers hs rest)) e
