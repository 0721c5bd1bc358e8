-- ===== src/Rtsp/Message/Tests.antt =====
-- Lines of src/rtsp.c at concrete messages.
use shairport_sync_for_openw.Prelude.{ℕ, ◌≡◌, refl, arith, none, some, List, [], ◌∷◌}
use shairport_sync_for_openw.Prelude.Int.{pos}
use shairport_sync_for_openw.Rtsp.Message.Headers.{get-add}
use shairport_sync_for_openw.Rtsp.Message.{
  message, content_length, msg_add_header, msg_get_header, find_header, same_ignoring_case, lower,
  size_of, atoi, skip_spaces,
}

-- "Content-Length: 5" announces five bytes.
pub size_of_five :
    (method path : List ℕ)
    → size_of (
        msg_get_header content_length
          (msg_add_header content_length (53 ∷ []) (message method path)))
      ≡ pos 5
unfolding msg_get_header find_header same_ignoring_case lower size_of msg_add_header atoi
    skip_spaces
size_of_five method path = refl

-- A message with a "CSeq" alone announces nothing.
pub no_content_length :
    msg_get_header content_length
      (msg_add_header (67 ∷ 83 ∷ 101 ∷ 113 ∷ []) (49 ∷ []) (message [] []))
    ≡ none
unfolding msg_get_header find_header same_ignoring_case lower msg_add_header
no_content_length = refl

pub nothing_found : (name : List ℕ) → msg_get_header name (message [] []) ≡ none
unfolding msg_get_header find_header
nothing_found name = refl

-- A single header is found.
pub only_found :
    (name value : List ℕ)
    → msg_get_header name (msg_add_header name value (message [] [])) ≡ some value
only_found name value = get-add name value (message [] []) (nothing_found name) (omega arith)
