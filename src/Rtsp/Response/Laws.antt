-- ===== src/Rtsp/Response/Laws.antt =====
-- Which packet `msg_write_response` of src/rtsp.c gives to the connection, and when it gives none.
use mathlib.Core.List.{append_assoc, append-nil}
use shairport_sync_for_openw.Prelude.{
  ℕ, ◌+◌, ◌≤◌, ◌<◌, ◌≡◌, ◌⊎◌, inl, inr, refl, sym, ap, ◌∙◌, arith, true, false, Option, none, some,
  List, [], ◌∷◌, ◌++◌, leb, ◌==◌, if◌then◌else◌, length, length-append, Bool-cases,
}
use shairport_sync_for_openw.Prelude.Int.{ℤ, pos, negsuc, ltb_ℤ}
use shairport_sync_for_openw.Rtsp.Message.{Message, cr, lf}
use shairport_sync_for_openw.Rtsp.Response.{
  status_line, header, pktfree, is_overlong, put_headers, length_header, put_length, returned,
  overruns, send, put_content, after_length, after_headers, msg_write_response,
}

-- The headers of a response, one after the other.
abbrev pub headers_text : List (List ℕ × List ℕ) → List ℕ
headers_text [] = []
headers_text ((name, value) ∷ hs) = header name value ++ headers_text hs

abbrev pub length_text : ℕ → List ℕ
length_text n = if n == 0 then [] else length_header n

-- All of a response before the empty line.
abbrev pub head_text : ℤ → Message → List ℕ
head_text respcode resp =
    ((status_line respcode ++ cr ∷ lf ∷ []) ++ headers_text resp.headers)
    ++ length_text (length resp.content)

-- A response, written out.
abbrev pub response_text : ℤ → Message → List ℕ
response_text respcode resp = (head_text respcode resp ++ cr ∷ lf ∷ []) ++ resp.content

overlong_iff : (pkt : List ℕ) → is_overlong pkt ≡ leb 3072 (length pkt)
unfolding is_overlong
overlong_iff pkt = ground arith

append-header :
    (pkt name value : List ℕ) (hs : List (List ℕ × List ℕ))
    → (pkt ++ header name value) ++ headers_text hs ≡ pkt ++ headers_text ((name, value) ∷ hs)
append-header pkt name value hs = append_assoc pkt (header name value) (headers_text hs)

not_overlong : (pkt rest : List ℕ) → length (pkt ++ rest) < 3072 → is_overlong pkt ≡ false
not_overlong pkt rest h =
    let short : leb 3072 (length pkt) ≡ false = ground (arith, length-append pkt rest) in
    overlong_iff pkt ∙ short

put_headers_short :
    (pkt : List ℕ) (hs : List (List ℕ × List ℕ))
    → length (pkt ++ headers_text hs) < 3072
    → put_headers pkt hs ≡ some (pkt ++ headers_text hs)
unfolding put_headers
put_headers_short pkt [] h = ap some (sym (append-nil pkt))
put_headers_short pkt ((name, value) ∷ hs) h =
    let longer = pkt ++ header name value in
    let e = append-header pkt name value hs in
    let k : length (longer ++ headers_text hs) < 3072 = omega (arith, ap length e) in
    rw (not_overlong longer (headers_text hs) k) (put_headers_short longer hs k ∙ ap some e)

put_headers-cases :
    (pkt : List ℕ) (hs : List (List ℕ × List ℕ))
    → (put_headers pkt hs ≡ none) ⊎ (put_headers pkt hs ≡ some (pkt ++ headers_text hs))
unfolding put_headers
put_headers-cases pkt [] = inr (ap some (sym (append-nil pkt)))
put_headers-cases pkt ((name, value) ∷ hs) =
    let longer = pkt ++ header name value in
    elim (Bool-cases (is_overlong longer)) [
      | inl over ↦ inl (rw over refl)
      | inr fits ↦ elim (put_headers-cases longer hs) [
        | inl e ↦ inl (rw (fits, e) refl)
        | inr e ↦ inr (rw (fits, e) (ap some (append-header pkt name value hs)))
      ]
    ]

put_length-cases :
    (n : ℕ) (pkt : List ℕ)
    → (put_length n pkt ≡ none) ⊎ (put_length n pkt ≡ some (pkt ++ length_text n))
unfolding put_length
put_length-cases n pkt = elim (Bool-cases (n == 0)) [
  | inl empty ↦ inr (rw empty (ap some (sym (append-nil pkt))))
  | inr more ↦ elim (Bool-cases (is_overlong (pkt ++ length_header n))) [
    | inl over ↦ inl (rw (more, over) refl)
    | inr fits ↦ inr (rw (more, fits) refl)
  ]
]

put_length_short :
    (n : ℕ) (pkt : List ℕ)
    → length (pkt ++ length_text n) < 3072
    → put_length n pkt ≡ some (pkt ++ length_text n)
unfolding put_length
put_length_short n pkt h = elim (Bool-cases (n == 0)) [
  | inl empty ↦ rw empty (ap some (sym (append-nil pkt)))
  | inr more ↦
      let k : length (pkt ++ length_header n) < 3072 = rw more at h in
      let e = ap length (append-nil (pkt ++ length_header n)) in
      rw (more, not_overlong (pkt ++ length_header n) [] (omega (arith, e))) refl
]

module _ (write : List ℕ → Option ℕ) where
  -- With a head that is short enough, the room for the content decides.
  after_head :
      (respcode : ℤ) (resp : Message)
      → length (head_text respcode resp) < 3072
      → msg_write_response write respcode resp
        ≡ put_content write resp.content (head_text respcode resp)
  unfolding msg_write_response after_headers after_length
  after_head respcode resp h =
      let start = status_line respcode ++ cr ∷ lf ∷ [] in
      let hs = headers_text resp.headers in
      let l = length-append (start ++ hs) (length_text (length resp.content)) in
      rw
        (
          put_headers_short start resp.headers (omega (arith, l)),
          put_length_short (length resp.content) (start ++ hs) h,
        )
        refl

  module _ (content pkt : List ℕ) where
    abbrev whole : List ℕ
    whole = (pkt ++ cr ∷ lf ∷ []) ++ content

    length-whole : length whole ≡ length (pkt ++ cr ∷ lf ∷ []) + length content
    length-whole = length-append (pkt ++ cr ∷ lf ∷ []) content

    room :
        length whole ≤ 4096 → ltb_ℤ (pktfree (pkt ++ cr ∷ lf ∷ [])) (pos (length content)) ≡ false
    room h = ground (arith, length-whole)

    put_content_short : length whole < 3072 → put_content write content pkt ≡ send write whole
    unfolding put_content
    put_content_short h =
        let short : leb 3072 (length whole) ≡ false = ground arith in
        rw (room (omega arith), overlong_iff whole ∙ short) refl

    put_content_long :
        3072 ≤ length whole
        → length whole ≤ 4096
        → put_content write content pkt ≡ returned (negsuc 2) none
    unfolding put_content
    put_content_long h k =
        let long : leb 3072 (length whole) ≡ true = ground arith in
        rw (room k, overlong_iff whole ∙ long) refl

    put_content_overruns : 4096 < length whole → put_content write content pkt ≡ overruns
    unfolding put_content
    put_content_overruns h =
        let none_left : ltb_ℤ (pktfree (pkt ++ cr ∷ lf ∷ [])) (pos (length content)) ≡ true =
          ground (arith, length-whole) in
        rw none_left refl

  module _ (respcode : ℤ) (resp : Message) where
    length-head :
        length (response_text respcode resp)
        ≡ length (head_text respcode resp) + 2 + length resp.content
    length-head = omega (
      arith,
      length-append (head_text respcode resp ++ cr ∷ lf ∷ []) resp.content,
      length-append (head_text respcode resp) (cr ∷ lf ∷ []),
    )

    -- A response that takes less than 3072 bytes is given to the connection as a whole: the status
    -- line, the headers in their order, the length of the content if there is any, the empty line and
    -- the content.
    pub msg_write_response_short :
        length (response_text respcode resp) < 3072
        → msg_write_response write respcode resp ≡ send write (response_text respcode resp)
    msg_write_response_short h =
        after_head respcode resp (omega (arith, length-head))
        ∙ put_content_short resp.content (head_text respcode resp) h

    -- A response that takes 3072 to 4096 bytes is not written at all, and the value is negative,
    -- although it would fit in the buffer.
    pub msg_write_response_long :
        3072 ≤ length (response_text respcode resp)
        → length (response_text respcode resp) ≤ 4096
        → (k : ℕ) × (msg_write_response write respcode resp ≡ returned (negsuc k) none)
    unfolding msg_write_response after_headers after_length
    msg_write_response_long h k =
        let start = status_line respcode ++ cr ∷ lf ∷ [] in
        let pkt = start ++ headers_text resp.headers in
        elim (put_headers-cases start resp.headers) [
          | inl e ↦ (0, rw e refl)
          | inr e ↦ elim (put_length-cases (length resp.content) pkt) [
            | inl f ↦ (1, rw (e, f) refl)
            | inr f ↦ (2, rw (e, f) (put_content_long resp.content (head_text respcode resp) h k))
          ]
        ]

    -- If the lines before the empty line take less than 3072 bytes and the whole response more than
    -- 4096, the content is copied beyond the end of the buffer, before the length is looked at.
    pub msg_write_response_overruns :
        length (head_text respcode resp) < 3072
        → 4096 < length (response_text respcode resp)
        → msg_write_response write respcode resp ≡ overruns
    msg_write_response_overruns h k =
        after_head respcode resp h ∙ put_content_overruns resp.content (head_text respcode resp) k
