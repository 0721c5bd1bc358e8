-- ===== src/Rtsp/Response/Read.antt =====
-- A response of `msg_write_response` of src/rtsp.c, read by `nextline` and `msg_handle_line`.
use mathlib.Core.List.{append_assoc, append-nil}
use shairport_sync_for_openw.Prelude.{
  ℕ, suc, ◌+◌, ◌^◌, ◌≤◌, ◌<◌, ◌≡◌, inl, inr, refl, sym, ap, ◌∙◌, arith, true, Option, none, some,
  List, [], ◌∷◌, ◌++◌, ◌==◌, if◌then◌else◌, length, length-append, Bool-cases, All, All-append,
}
use shairport_sync_for_openw.Prelude.Int.{ℤ, pos, signed32}
use shairport_sync_for_openw.Rtsp.Message.{
  Message, message, cr, lf, colon, space, protocol, content_length, nextline, msg_add_header,
  msg_get_header, size_of,
}
use shairport_sync_for_openw.Rtsp.Message.Headers.{
  get-add, size_of-none, size_of-some, length-add, is_name, IsName-of,
}
use shairport_sync_for_openw.Rtsp.Message.Lines.{IsPlain, nextline_crlf}
use shairport_sync_for_openw.Rtsp.Message.Parse.{IsName}
use shairport_sync_for_openw.Rtsp.ReadRequest.{complete, read_lines}
use shairport_sync_for_openw.Rtsp.ReadRequest.Header.{
  Header, text, write_headers, add_headers, lines-headers, length-headers, IsPlain-of_name,
}
use shairport_sync_for_openw.Rtsp.Response.{
  print_int, status_line, header, length_header, responses, unauthorized, respcode_text, send,
  msg_write_response, is_code, find_text,
}
use shairport_sync_for_openw.Rtsp.Response.Decimal.{atoi-print_int, print_int-IsPlain}
use shairport_sync_for_openw.Rtsp.Response.Laws.{
  headers_text, length_text, head_text, response_text, msg_write_response_short,
}

abbrev pub plain_headers : List Header → List (List ℕ × List ℕ)
plain_headers [] = []
plain_headers (h ∷ hs) = (h.name, h.value) ∷ plain_headers hs

pub content_length-IsName : All IsName content_length
content_length-IsName = IsName-of content_length refl

-- The header that announces content.
abbrev pub length_header_of : ℕ → Header
length_header_of n = record {
  name = content_length;
  value = print_int (pos n);
  name_IsName = content_length-IsName;
  value_IsPlain = print_int-IsPlain n;
}

abbrev pub length_headers : ℕ → List Header
length_headers n = if n == 0 then [] else length_header_of n ∷ []

abbrev pub all_headers : List Header → ℕ → List Header
all_headers hs n = hs ++ length_headers n

write_header :
    (name value rest : List ℕ)
    → header name value ++ rest ≡ name ++ colon ∷ space ∷ (value ++ cr ∷ lf ∷ rest)
unfolding header
write_header name value rest =
    append_assoc name (colon ∷ space ∷ (value ++ cr ∷ lf ∷ [])) rest
    ∙ ap (λ t. name ++ colon ∷ space ∷ t) (append_assoc value (cr ∷ lf ∷ []) rest)

write_header_of :
    (h : Header) (rest : List ℕ) → header h.name h.value ++ rest ≡ text h ++ cr ∷ lf ∷ rest
write_header_of h rest =
    write_header h.name h.value rest
    ∙ sym (append_assoc h.name (colon ∷ space ∷ h.value) (cr ∷ lf ∷ rest))

headers_text-write :
    (hs ks : List Header) (rest : List ℕ)
    → headers_text (plain_headers hs) ++ write_headers ks rest ≡ write_headers (hs ++ ks) rest
headers_text-write [] ks rest = refl
headers_text-write (h ∷ hs) ks rest =
    append_assoc (header h.name h.value) (headers_text (plain_headers hs)) (write_headers ks rest)
    ∙ (ap (λ t. header h.name h.value ++ t) (headers_text-write hs ks rest)
        ∙ write_header_of h (write_headers (hs ++ ks) rest))

add_headers-append :
    (m : Message) (hs ks : List Header)
    → add_headers m (hs ++ ks) ≡ add_headers (add_headers m hs) ks
add_headers-append m [] ks = refl
add_headers-append m (h ∷ hs) ks = add_headers-append (msg_add_header h.name h.value m) hs ks

length-add_headers :
    (m : Message) (hs : List Header)
    → length (add_headers m hs).headers ≤ length m.headers + length hs
length-add_headers m [] = omega arith
length-add_headers m (h ∷ hs) =
    omega
      (arith, length-add_headers (msg_add_header h.name h.value m) hs, length-add h.name h.value m)

find_text-IsPlain :
    (respcode : ℤ) (t : List ℕ) (rs : List (ℕ × List ℕ))
    → All IsPlain t
    → All (λ r. All IsPlain r.1) rs
    → All IsPlain (find_text respcode t rs)
unfolding find_text
find_text-IsPlain respcode t [] h hs = h
find_text-IsPlain respcode t ((code, string) ∷ rs) h hs =
    elim (Bool-cases (is_code respcode code)) [
      | inl e ↦ rw e (find_text-IsPlain respcode string rs hs.0 hs.1)
      | inr e ↦ rw e (find_text-IsPlain respcode t rs h hs.1)
    ]

texts_of :
    (rs : List (ℕ × List ℕ)) → All (λ r. is_name r.1 ≡ true) rs → All (λ r. All IsPlain r.1) rs
texts_of [] h = tt
texts_of ((code, string) ∷ rs) (p, h) = (IsPlain-of_name string (IsName-of string p), texts_of rs h)

respcode_text-IsPlain : (respcode : ℤ) → All IsPlain (respcode_text respcode)
unfolding respcode_text
respcode_text-IsPlain respcode =
    find_text-IsPlain respcode unauthorized responses
      (IsPlain-of_name unauthorized (IsName-of unauthorized refl))
      (texts_of responses
        (refl, (refl, (refl, (refl, (refl, (refl, (refl, (refl, (refl, tt))))))))))

status_line-IsPlain : (code : ℕ) → All IsPlain (status_line (pos code))
unfolding status_line
status_line-IsPlain code =
    All-append IsPlain protocol (space ∷ (print_int (pos code) ++ space ∷ respcode_text (pos code)))
      (IsPlain-of_name protocol (IsName-of protocol refl))
      (
        (refl, refl, refl),
        All-append IsPlain (print_int (pos code)) (space ∷ respcode_text (pos code))
            (print_int-IsPlain code) ((refl, refl, refl), respcode_text-IsPlain (pos code)),
      )

-- A response with these headers and this content.
abbrev pub reply : List Header → List ℕ → Message
reply hs content = record { headers = plain_headers hs; method = []; path = []; content = content }

length_text-write :
    (n : ℕ) (content : List ℕ)
    → n < 2 ^ 31
    → length_text n ++ cr ∷ lf ∷ content ≡ write_headers (length_headers n) content
unfolding length_header
length_text-write n content h = elim (Bool-cases (n == 0)) [
  | inl empty ↦ rw empty refl
  | inr more ↦
      let e : signed32 n ≡ pos n = ground arith in
      rw (more, e) (write_header_of (length_header_of n) (cr ∷ lf ∷ content))
]

-- What follows the status line.
response-write :
    (respcode : ℤ) (hs : List Header) (content : List ℕ)
    → length content < 2 ^ 31
    → response_text respcode (reply hs content)
      ≡ status_line respcode ++ cr ∷ lf ∷ write_headers (all_headers hs (length content)) content
response-write respcode hs content h =
    let start = status_line respcode in
    let ht = headers_text (plain_headers hs) in
    let lt = length_text (length content) in
    append_assoc (((start ++ cr ∷ lf ∷ []) ++ ht) ++ lt) (cr ∷ lf ∷ []) content
    ∙ (append_assoc ((start ++ cr ∷ lf ∷ []) ++ ht) lt (cr ∷ lf ∷ content)
        ∙ (append_assoc (start ++ cr ∷ lf ∷ []) ht (lt ++ cr ∷ lf ∷ content)
            ∙ (append_assoc start (cr ∷ lf ∷ []) (ht ++ (lt ++ cr ∷ lf ∷ content))
                ∙ ap (λ t. start ++ cr ∷ lf ∷ t)
                    (ap (λ t. ht ++ t) (length_text-write (length content) content h)
                      ∙ headers_text-write hs (length_headers (length content)) content))))

module _ (m : Message) (hs : List Header) (n : ℕ) where
  size_of_all :
      msg_get_header content_length (add_headers m hs) ≡ none
      → length m.headers + length hs < 16
      → n < 10 ^ 10
      → size_of (msg_get_header content_length (add_headers m (all_headers hs n))) ≡ pos n
  size_of_all h k l = elim (Bool-cases (n == 0)) [
    | inl empty ↦
        let e : n ≡ 0 = ground arith in rw (empty, append-nil hs, h) (size_of-none ∙ ap pos (sym e))
    | inr more ↦
        rw
          (
            more,
            add_headers-append m hs (length_header_of n ∷ []),
            get-add content_length (print_int (pos n)) (add_headers m hs) h
                (omega (arith, length-add_headers m hs)),
          )
          (size_of-some (print_int (pos n)) ∙ atoi-print_int n l)
  ]

-- A response of less than 3072 bytes with at most 15 headers, none of them a Content-Length, is sent
-- as a packet whose first line is the status line, and whose remaining lines are read back as all the
-- headers in their order, a Content-Length with the length of the content unless it is empty, and
-- then the content.
pub response_read :
    (write : List ℕ → Option ℕ) (code : ℕ) (hs : List Header) (content : List ℕ)
    → length (response_text (pos code) (reply hs content)) < 3072
    → length hs < 16
    → let m = message [] [] in
      msg_get_header content_length (add_headers m hs) ≡ none
      → (packet rest : List ℕ) × (msg_write_response write (pos code) (reply hs content)
          ≡ send write packet)
        × (nextline packet ≡ some (status_line (pos code), rest))
        × (read_lines (some m) rest
            ≡ some (
                complete
                  (add_headers m (all_headers hs (length content)))
                  (length content)
                  content))
response_read write code hs content h k none_yet =
    let m = message [] [] in
    let n = length content in
    let ks = all_headers hs n in
    let t = response_text (pos code) (reply hs content) in
    let rest = write_headers ks content in
    let small : n < 2 ^ 31 =
      omega
        (arith, length-append (head_text (pos code) (reply hs content) ++ cr ∷ lf ∷ []) content) in
    (
      t,
      rest,
      msg_write_response_short write (pos code) (reply hs content) h,
      ap nextline (response-write (pos code) hs content small)
          ∙ nextline_crlf (status_line (pos code)) rest (status_line-IsPlain code),
      lines-headers ks (suc (length rest)) n m content (omega (arith, length-headers ks content))
          (size_of_all m hs n none_yet (omega arith) (omega arith)),
    )
