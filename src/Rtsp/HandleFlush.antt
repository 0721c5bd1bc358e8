-- ===== src/Rtsp/HandleFlush.antt =====
-- `handle_flush` of src/rtsp.c: the FLUSH request, from its header to the player's buffer; and
-- `uatoi` of src/common.c. `strstr` and `strchr` are modelled as far as they are used.
pub mod Laws
mod Tests
use shairport_sync_for_openw.Prelude.{
  ℕ, ◌^◌, Bool, true, false, Option, none, some, List, [], ◌∷◌, ◌==◌, if◌then◌else◌, drop, ◌>>=◌,
}
use shairport_sync_for_openw.Prelude.Int.{unsigned}
use shairport_sync_for_openw.Rtsp.Message.{Message, msg_get_header, atoi}
use shairport_sync_for_openw.Rtsp.PlayLock.{Lock, have_play_lock}
use shairport_sync_for_openw.Player.Buffer.{Conn, player_flush}

-- "RTP-Info".
abbrev pub rtp_info : List ℕ
rtp_info = 82 ∷ 84 ∷ 80 ∷ 45 ∷ 73 ∷ 110 ∷ 102 ∷ 111 ∷ []

-- "rtptime=".
abbrev pub rtptime : List ℕ
rtptime = 114 ∷ 116 ∷ 112 ∷ 116 ∷ 105 ∷ 109 ∷ 101 ∷ 61 ∷ []

pub is_prefix : List ℕ → List ℕ → Bool
is_prefix [] t = true
is_prefix (x ∷ s) [] = false
is_prefix (x ∷ s) (y ∷ t) = let rest = is_prefix s t in if x == y then rest else false

-- What the result points at, from there to the end; the text searched for is not empty.
pub strstr : List ℕ → List ℕ → Option (List ℕ)
strstr [] needle = none
strstr (x ∷ s) needle =
    let rest = strstr s needle in if is_prefix needle (x ∷ s) then some (x ∷ s) else rest

pub strchr : List ℕ → ℕ → Option (List ℕ)
strchr [] c = none
strchr (x ∷ s) c = let rest = strchr s c in if x == c then some (x ∷ s) else rest

pub uatoi : List ℕ → ℕ
uatoi s = unsigned (2 ^ 32) (atoi s)

-- The text after "rtptime=" in the header, if there is one.
pub rtptime_text : Message → Option (List ℕ)
rtptime_text req = do
  hdr ← msg_get_header rtp_info req
  p ← strstr hdr rtptime
  q ← strchr p 61
  some (drop 1 q)

pub time_of : Option (List ℕ) → ℕ
time_of none = 0
time_of (some text) = uatoi text

-- The connection, the code of the response, the texts of the metadata 'flsr' that are sent, and
-- whether `player_flush` sends its own.
pub record Handled : Type 0 where
  pub conn : Conn
  pub respcode : ℕ
  pub flsr : List (Option (List ℕ))
  pub player_flushed : Bool

pub handle_flush : Option ℕ → Lock → Message → Conn → Handled
handle_flush me lock req conn =
    let text = rtptime_text req in
    let (flushed, told) = player_flush (time_of text) conn in
    if have_play_lock me lock
    then record { conn = flushed; respcode = 200; flsr = text ∷ []; player_flushed = told }
    else record { conn = conn; respcode = 451; flsr = []; player_flushed = false }
