-- ===== src/Rtsp/Response.antt =====
-- `msg_write_response` of src/rtsp.c. The calls of `snprintf` and `memcpy` append to a buffer of 4096
-- bytes. A text that does not fit is cut, but `pktfree` counts all of it, and the function then ends.
-- The connection, encrypted or not, is a function from the packet to what `write` returns.
pub mod Decimal
pub mod Laws
pub mod Read
mod Tests
use shairport_sync_for_openw.Prelude.{
  ℕ, zero, suc, ◌+◌, ◌-◌, ◌/◌, ◌%◌, ◌^◌, Bool, false, Option, none, some, List, [], ◌∷◌, ◌++◌, ltb,
  leb, ◌==◌, if◌then◌else◌, length,
}
use shairport_sync_for_openw.Prelude.Int.{ℤ, pos, negsuc, sub_ℕ, leb_ℤ, ltb_ℤ, signed32}
use shairport_sync_for_openw.Rtsp.Message.{Message, cr, lf, space, colon, protocol, content_length}

-- "%d" of a number below 10 ^ fuel.
pub print_digits : ℕ → ℕ → List ℕ
print_digits zero n = []
print_digits (suc fuel) n =
    let rest = print_digits fuel (n / 10) in
    if ltb n 10 then (48 + n) ∷ [] else rest ++ (48 + n % 10) ∷ []

-- "%d" of an `int`, which has at most ten digits.
pub print_int : ℤ → List ℕ
print_int (pos n) = print_digits 10 n
print_int (negsuc n) = 45 ∷ print_digits 10 (suc n)

abbrev ok : List ℕ
ok = 79 ∷ 75 ∷ []

abbrev bad_request : List ℕ
bad_request = 66 ∷ 97 ∷ 100 ∷ 32 ∷ 82 ∷ 101 ∷ 113 ∷ 117 ∷ 101 ∷ 115 ∷ 116 ∷ []

abbrev unauthorized : List ℕ
unauthorized = 85 ∷ 110 ∷ 97 ∷ 117 ∷ 116 ∷ 104 ∷ 111 ∷ 114 ∷ 105 ∷ 122 ∷ 101 ∷ 100 ∷ []

abbrev not_found : List ℕ
not_found = 78 ∷ 111 ∷ 116 ∷ 32 ∷ 70 ∷ 111 ∷ 117 ∷ 110 ∷ 100 ∷ []

abbrev unavailable : List ℕ
unavailable = 85 ∷ 110 ∷ 97 ∷ 118 ∷ 97 ∷ 105 ∷ 108 ∷ 97 ∷ 98 ∷ 108 ∷ 101 ∷ []

abbrev header_field_not_valid_for_resource : List ℕ
header_field_not_valid_for_resource =
    72 ∷ 101 ∷ 97 ∷ 100 ∷ 101 ∷ 114 ∷ 32 ∷ 70 ∷ 105 ∷ 101 ∷ 108 ∷ 100 ∷ 32 ∷ 78 ∷ 111 ∷ 116 ∷ 32
    ∷ 86 ∷ 97 ∷ 108 ∷ 105 ∷ 100 ∷ 32 ∷ 102 ∷ 111 ∷ 114 ∷ 32 ∷ 82 ∷ 101 ∷ 115 ∷ 111 ∷ 117 ∷ 114 ∷ 99
    ∷ 101 ∷ []

abbrev connection_authorization_required : List ℕ
connection_authorization_required =
    67 ∷ 111 ∷ 110 ∷ 110 ∷ 101 ∷ 99 ∷ 116 ∷ 105 ∷ 111 ∷ 110 ∷ 32 ∷ 65 ∷ 117 ∷ 116 ∷ 104 ∷ 111 ∷ 114
    ∷ 105 ∷ 122 ∷ 97 ∷ 116 ∷ 105 ∷ 111 ∷ 110 ∷ 32 ∷ 82 ∷ 101 ∷ 113 ∷ 117 ∷ 105 ∷ 114 ∷ 101 ∷ 100
    ∷ []

abbrev internal_server_error : List ℕ
internal_server_error =
    73 ∷ 110 ∷ 116 ∷ 101 ∷ 114 ∷ 110 ∷ 97 ∷ 108 ∷ 32 ∷ 83 ∷ 101 ∷ 114 ∷ 118 ∷ 101 ∷ 114 ∷ 32 ∷ 69
    ∷ 114 ∷ 114 ∷ 111 ∷ 114 ∷ []

abbrev not_implemented : List ℕ
not_implemented =
    78 ∷ 111 ∷ 116 ∷ 32 ∷ 73 ∷ 109 ∷ 112 ∷ 108 ∷ 101 ∷ 109 ∷ 101 ∷ 110 ∷ 116 ∷ 101 ∷ 100 ∷ []

-- The table of codes and their texts.
abbrev responses : List (ℕ × List ℕ)
responses =
    (200, ok)
    ∷ (400, bad_request)
    ∷ (403, unauthorized)
    ∷ (404, not_found)
    ∷ (451, unavailable)
    ∷ (456, header_field_not_valid_for_resource)
    ∷ (470, connection_authorization_required)
    ∷ (500, internal_server_error)
    ∷ (501, not_implemented)
    ∷ []

is_code : ℤ → ℕ → Bool
is_code (pos n) code = n == code
is_code (negsuc n) code = false

-- The last entry of the code counts; without one, the text stays as it was.
find_text : ℤ → List ℕ → List (ℕ × List ℕ) → List ℕ
find_text respcode text [] = text
find_text respcode text ((code, string) ∷ rs) =
    find_text respcode (if is_code respcode code then string else text) rs

pub respcode_text : ℤ → List ℕ
respcode_text respcode = find_text respcode unauthorized responses

-- "RTSP/1.0 %d %s", without the end of the line.
pub status_line : ℤ → List ℕ
status_line respcode = protocol ++ space ∷ (print_int respcode ++ space ∷ respcode_text respcode)

-- "%s: %s\r\n".
pub header : List ℕ → List ℕ → List ℕ
header name value = name ++ colon ∷ space ∷ (value ++ cr ∷ lf ∷ [])

abbrev pub pkt_size : ℕ
pkt_size = 4096

-- The room after what is in the packet.
abbrev pub pktfree : List ℕ → ℤ
pktfree pkt = sub_ℕ pkt_size (length pkt)

pub is_overlong : List ℕ → Bool
is_overlong pkt = leb_ℤ (pktfree pkt) (pos 1024)

pub put_headers : List ℕ → List (List ℕ × List ℕ) → Option (List ℕ)
put_headers pkt [] = some pkt
put_headers pkt ((name, value) ∷ hs) =
    let longer = pkt ++ header name value in
    let rest = put_headers longer hs in if is_overlong longer then none else rest

pub length_header : ℕ → List ℕ
length_header n = header content_length (print_int (signed32 n))

pub put_length : ℕ → List ℕ → Option (List ℕ)
put_length n pkt =
    let longer = pkt ++ length_header n in
    if n == 0 then some pkt else if is_overlong longer then none else some longer

-- What the call does: it returns a value, having given a packet to `write` or not, or it writes
-- beyond the end of its buffer.
pub data Written : Type 0 where
  returned : ℤ → Option (List ℕ) → Written
  overruns : Written

answer : Option ℕ → ℕ → ℤ
answer none size = negsuc 3
answer (some reply) size = if reply == size then pos 0 else negsuc 4

module _ (write : List ℕ → Option ℕ) where
  pub send : List ℕ → Written
  send pkt = returned (answer (write pkt) (length pkt)) (some pkt)

  -- The empty line, the content, and the writing.
  pub put_content : List ℕ → List ℕ → Written
  put_content content pkt =
      let head = pkt ++ cr ∷ lf ∷ [] in
      let whole = head ++ content in
      if ltb_ℤ (pktfree head) (pos (length content))
      then overruns
      else if is_overlong whole
      then returned (negsuc 2) none
      else send whole

  pub after_length : List ℕ → Option (List ℕ) → Written
  after_length content none = returned (negsuc 1) none
  after_length content (some pkt) = put_content content pkt

  pub after_headers : List ℕ → Option (List ℕ) → Written
  after_headers content none = returned (negsuc 0) none
  after_headers content (some pkt) = after_length content (put_length (length content) pkt)

  pub msg_write_response : ℤ → Message → Written
  msg_write_response respcode resp =
      after_headers resp.content (put_headers (status_line respcode ++ cr ∷ lf ∷ []) resp.headers)
