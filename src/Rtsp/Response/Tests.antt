-- ===== src/Rtsp/Response/Tests.antt =====
-- The theorems on `msg_write_response` of src/rtsp.c at responses with the code 200.
use shairport_sync_for_openw.Prelude.{
  ℕ, ◌≡◌, ◌<◌, refl, Option, some, List, [], ◌∷◌, arith, length, replicate, ltb→lt,
}
use shairport_sync_for_openw.Prelude.Int.{pos}
use shairport_sync_for_openw.Rtsp.Message.{message, nextline, Message}
use shairport_sync_for_openw.Rtsp.Message.Headers.{IsName-of}
use shairport_sync_for_openw.Rtsp.Message.Tests.{no_content_length}
use shairport_sync_for_openw.Rtsp.ReadRequest.{complete, read_lines}
use shairport_sync_for_openw.Rtsp.ReadRequest.Header.{Header, add_headers}
use shairport_sync_for_openw.Rtsp.Response.{
  status_line, print_int, print_digits, respcode_text, find_text, is_code, header, length_header,
  send, overruns, msg_write_response,
}
use shairport_sync_for_openw.Rtsp.Response.Laws.{
  response_text, head_text, msg_write_response_short, msg_write_response_overruns,
}
use shairport_sync_for_openw.Rtsp.Response.Read.{reply, all_headers, response_read}

-- A connection that takes all that it is given.
abbrev take_all : List ℕ → Option ℕ
take_all packet = some (length packet)

-- "CSeq: 1".
abbrev c_seq : Header
c_seq = record {
  name = 67 ∷ 83 ∷ 101 ∷ 113 ∷ [];
  value = 49 ∷ [];
  name_IsName = IsName-of (67 ∷ 83 ∷ 101 ∷ 113 ∷ []) refl;
  value_IsPlain = ((refl, refl, refl), tt);
}

abbrev short_reply : Message
short_reply = reply (c_seq ∷ []) (1 ∷ 2 ∷ 3 ∷ [])

abbrev overlong_reply : Message
overlong_reply = reply [] (replicate 5000 0)

short_length : length (response_text (pos 200) short_reply) < 3072
unfolding status_line print_int print_digits respcode_text find_text is_code header length_header
short_length = ltb→lt (length (response_text (pos 200) short_reply)) 3072 refl

overlong_length :
    (length (head_text (pos 200) overlong_reply) < 3072)
    × (4096 < length (response_text (pos 200) overlong_reply))
unfolding status_line print_int print_digits respcode_text find_text is_code header length_header
overlong_length = (
  ltb→lt (length (head_text (pos 200) overlong_reply)) 3072 refl,
  ltb→lt 4096 (length (response_text (pos 200) overlong_reply)) refl,
)

msg_write_response_short_example :
    msg_write_response take_all (pos 200) short_reply
    ≡ send take_all (response_text (pos 200) short_reply)
msg_write_response_short_example =
    msg_write_response_short take_all (pos 200) short_reply short_length

msg_write_response_overruns_example :
    msg_write_response take_all (pos 200) overlong_reply ≡ overruns
msg_write_response_overruns_example =
    msg_write_response_overruns take_all (pos 200) overlong_reply overlong_length.0
      overlong_length.1

response_read_example :
    (packet rest : List ℕ) × (msg_write_response take_all (pos 200) short_reply
      ≡ send take_all packet)
    × (nextline packet ≡ some (status_line (pos 200), rest))
    × (read_lines (some (message [] [])) rest
        ≡ some (
            complete (add_headers (message [] []) (all_headers (c_seq ∷ []) 3)) 3 (1 ∷ 2 ∷ 3 ∷ [])))
response_read_example =
    response_read take_all 200 (c_seq ∷ []) (1 ∷ 2 ∷ 3 ∷ []) short_length (omega arith)
      no_content_length
