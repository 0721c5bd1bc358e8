-- ===== src/Dacp.antt =====
-- The replies and the volume of src/dacp.c: `dacp_tlv_crawl`, `dacp_get_client_volume`,
-- `dacp_get_speaker_list`, `dacp_get_volume` and `dacp_set_volume`. A pointer into a reply is an
-- offset, which may run out of it; what the exchange with the client replies is an argument.
pub mod Crawl
pub mod Volume
pub mod SpeakerList
pub mod SetVolume
pub mod Stuck
mod Tests
use shairport_sync_for_openw.Prelude.{
  ℕ, zero, suc, ◌+◌, ◌*◌, ◌^◌, Bool, true, false, Option, none, some, List, [], ◌∷◌, ltb, leb, ◌==◌,
  if◌then◌else◌, drop, take, ◌||◌, ◌&&◌, not, ◌++◌, length,
}
use shairport_sync_for_openw.Prelude.Int.{
  ℤ, pos, negsuc, ◌+ℤ◌, ◌-ℤ◌, ◌*ℤ◌, leb_ℤ, ltb_ℤ, div_ℤ, signed32, signed64,
}

-- How a loop over a reply ends. `fault` is a read or a write out of bounds, which C leaves
-- undefined, and `unfinished` is the end of the fuel.
pub data Crawled {ℓ} (A : Type ℓ) : Type ℓ where
  done : A → Crawled A
  fault unfinished : Crawled A

abbrev pub checked {ℓ κ} : {A : Type ℓ} {B : Type κ} → Option A → (A → Crawled B) → Crawled B
checked none f = fault
checked (some a) f = f a

-- A multi-character constant such as 'cmvo'.
abbrev pub code : ℕ → ℕ → ℕ → ℕ → ℕ
code a b c d = ((a * 256 + b) * 256 + c) * 256 + d

abbrev pub cmgt : ℕ
cmgt = code b'c' b'm' b'g' b't'

abbrev pub cmvo : ℕ
cmvo = code b'c' b'm' b'v' b'o'

abbrev pub minm : ℕ
minm = code b'm' b'i' b'n' b'm'

abbrev pub msma : ℕ
msma = code b'm' b's' b'm' b'a'

abbrev pub caia : ℕ
caia = code b'c' b'a' b'i' b'a'

abbrev pub mdcl : ℕ
mdcl = code b'm' b'd' b'c' b'l'

abbrev pub casp : ℕ
casp = code b'c' b'a' b's' b'p'

-- `ntohl` of the four bytes at the start.
unfoldable pub word : List ℕ → Option ℕ
word (a ∷ b ∷ c ∷ d ∷ r) = some (code a b c d)
word _ = none

-- `ntohl(*(uint32_t *)p)`.
unfoldable pub word_at : List ℕ → ℤ → Option ℕ
word_at reply (pos p) = word (drop p reply)
word_at reply (negsuc p) = none

unfoldable pub read_signed : List ℕ → ℤ → Option ℤ
read_signed reply p = elim (word_at reply p) [ none ↦ none | some v ↦ some (signed32 v) ]

-- The type and the length of the entry at the pointer, and the pointer behind the entry.
unfoldable pub dacp_tlv_crawl : List ℕ → ℤ → Option (ℕ × ℤ × ℤ)
dacp_tlv_crawl reply p = elim (word_at reply p) [
  | none ↦ none
  | some type ↦ elim (word_at reply (p +ℤ pos 4)) [
    | none ↦ none
    | some n ↦ some (type, signed32 n, p +ℤ pos 4 +ℤ (pos 4 +ℤ signed32 n))
  ]
]

-- The loop of `dacp_get_client_volume`, on fuel.
pub volume_loop : ℕ → List ℕ → ℤ → ℤ → ℤ → Crawled ℤ
volume_loop zero reply sp reply_size overall_volume = unfinished
volume_loop (suc fuel) reply sp reply_size overall_volume =
    let rest = checked (dacp_tlv_crawl reply sp) (λ (type, item_size, sp').
      checked (if type == cmvo then read_signed reply (sp' -ℤ item_size) else some overall_volume)
        (volume_loop fuel reply sp' (reply_size -ℤ (item_size +ℤ pos 8)))) in
    if leb_ℤ (pos 8) reply_size then rest else done overall_volume

-- The volume in the reply, -1 if there is none. `done` is where the function returns.
pub client_volume : ℕ → List ℕ → Crawled ℤ
client_volume fuel reply =
    if leb 8 (length reply)
    then checked (dacp_tlv_crawl reply (pos 0)) (λ (type, item_size, sp).
      if type == cmgt
      then volume_loop fuel reply (sp -ℤ item_size) (pos (length reply) -ℤ pos 8) (negsuc 0)
      else done (negsuc 0))
    else done (negsuc 0)

-- `dacp_get_client_volume`, after `dacp_send_command`: the response is returned with it.
pub dacp_get_client_volume : ℕ → ℕ → List ℕ → Crawled ℤ
dacp_get_client_volume fuel response server_reply =
    if response == 200 then client_volume fuel server_reply else done (negsuc 0)

-- `dacp_spkr_stuff`.
pub record Speaker : Type 0 where
  pub speaker_number : ℤ
  pub active : Bool
  pub volume : ℤ
  pub name : List ℕ

abbrev pub no_speaker : Speaker
no_speaker = record { speaker_number = pos 0; active = false; volume = pos 0; name = [] }

-- `strncpy`, of at most `room` bytes: what is copied, up to a zero byte, if the source ends in
-- time.
pub copied : ℕ → List ℕ → Option (List ℕ)
copied zero s = some []
copied (suc room) [] = none
copied (suc room) (zero ∷ s) = some []
copied (suc room) (suc c ∷ s) = elim (copied room s) [ none ↦ none | some t ↦ some (suc c ∷ t) ]

-- Room for 128 bytes, of which the last is set to 0.
pub name_at : List ℕ → ℤ → Option (List ℕ)
name_at reply (pos p) = elim (copied 128 (drop p reply)) [
  | none ↦ none
  | some t ↦ some (take 127 t)
]
name_at reply (negsuc p) = none

-- A number of 64 bits, in two halves.
unfoldable pub long_at : List ℕ → ℤ → Option ℤ
long_at reply p = elim (word_at reply p) [
  | none ↦ none
  | some s ↦ elim (word_at reply (p +ℤ pos 4)) [
    | none ↦ none
    | some v ↦ some (signed64 (s * 2 ^ 32 + v))
  ]
]

-- An item that is no dictionary changes the last speaker in the array.
unfoldable pub set_item : List ℕ → ℕ → ℤ → Speaker → Option Speaker
set_item reply type t speaker =
    if type == minm
    then elim (name_at reply t) [ none ↦ none | some n ↦ some (record speaker { name = n }) ]
    else if type == cmvo
    then elim (read_signed reply t) [ none ↦ none | some r ↦ some (record speaker { volume = r }) ]
    else if type == msma
    then elim (long_at reply t) [
      | none ↦ none
      | some s ↦ some (record speaker { speaker_number = s })
    ]
    else if type == caia
    then some (record speaker { active = true })
    else some speaker

-- Before the first dictionary the index is -1, and an item that is stored is stored out of bounds.
unfoldable pub set_last : List ℕ → ℕ → ℤ → List Speaker → Option (List Speaker)
set_last reply type t [] =
    if type == minm || (type == cmvo || (type == msma || type == caia)) then none else some []
set_last reply type t (s ∷ rest) = elim (set_item reply type t s) [
  | none ↦ none
  | some s' ↦ some (s' ∷ rest)
]

-- The result of `dacp_get_speaker_list`: no list of speakers (a count of -1), too many speakers,
-- or the speakers that were found, the last one first.
pub data Speakers : Type 0 where
  no_list : Speakers
  too_many : Speakers
  found : List Speaker → Speakers

-- The loop, on fuel, with the last speaker first.
pub speaker_loop : ℕ → ℕ → List ℕ → ℤ → ℤ → List Speaker → Crawled Speakers
speaker_loop zero max reply sp le speakers = unfinished
speaker_loop (suc fuel) max reply sp le speakers =
    let rest = checked (dacp_tlv_crawl reply sp) (λ (type, item_size, sp').
      let more =
        speaker_loop fuel max reply (sp' -ℤ item_size) (le -ℤ pos 8) (no_speaker ∷ speakers) in
      let change =
        checked (set_last reply type (sp' -ℤ item_size) speakers)
          (speaker_loop fuel max reply sp' (le -ℤ (item_size +ℤ pos 8))) in
      if type == mdcl then (if length speakers == max then done too_many else more) else change) in
    if leb_ℤ (pos 8) le then rest else done (found speakers)

-- `dacp_get_speaker_list` for a response of 200.
pub dacp_get_speaker_list : ℕ → ℕ → List ℕ → Crawled Speakers
dacp_get_speaker_list fuel max reply =
    if leb 8 (length reply)
    then checked (dacp_tlv_crawl reply (pos 0)) (λ (type, item_size, sp).
      if type == casp
      then speaker_loop fuel max reply (sp -ℤ item_size) (pos (length reply) -ℤ pos 8) []
      else done no_list)
    else done no_list

abbrev pub same : ℤ → ℤ → Bool
same a b = leb_ℤ a b && leb_ℤ b a

-- Division by a positive number; it is not used at others.
abbrev pub quotient : ℤ → ℤ → ℤ
quotient a (pos d) = div_ℤ a d
quotient a (negsuc d) = pos 0

-- The loop that looks for our own speaker: the last one that has its number.
pub relative_volume : ℤ → ℤ → List Speaker → ℤ
relative_volume machine_number v [] = v
relative_volume machine_number v (s ∷ rest) =
    relative_volume machine_number (if same s.speaker_number machine_number then s.volume else v)
      rest

-- `dacp_get_volume`, when both replies are there.
pub actual_volume : ℤ → ℤ → List Speaker → ℤ
actual_volume machine_number overall_volume speaker_info =
    div_ℤ (overall_volume *ℤ relative_volume machine_number (pos 0) speaker_info +ℤ pos 50) 100

-- `dacp_set_include_speaker_volume` and `dacp_set_speaker_volume`.
pub data Command : Type 0 where
  include_speaker : ℤ → ℤ → Command
  speaker_volume : ℤ → ℤ → Command

pub active_speakers : List Speaker → ℕ
active_speakers [] = 0
active_speakers (s ∷ rest) = (if s.active then 1 else 0) + active_speakers rest

-- The loop that looks for the loudest of the other active speakers.
pub highest_other : ℤ → ℤ → List Speaker → ℤ
highest_other machine_number v [] = v
highest_other machine_number v (s ∷ rest) =
    highest_other machine_number
      (if not (same s.speaker_number machine_number) && (s.active && ltb_ℤ v s.volume)
        then s.volume
        else v)
      rest

-- What follows when our volume is below that of another active speaker.
pub below_others : ℤ → ℤ → ℤ → ℤ → List Command
below_others machine_number vo overall_volume highest =
    (if ltb_ℤ highest overall_volume then include_speaker machine_number highest ∷ [] else [])
    ++ (if same highest (pos 0)
        then []
        else speaker_volume machine_number
            (quotient (vo *ℤ pos 100 +ℤ quotient highest (pos 2)) highest)
          ∷ [])

-- The commands that `dacp_set_volume` sends, when both replies are there.
pub dacp_set_volume : ℤ → ℤ → ℤ → List Speaker → List Command
dacp_set_volume machine_number vo overall_volume speaker_info =
    let active = active_speakers speaker_info in
    let highest =
      div_ℤ (highest_other machine_number (pos 0) speaker_info *ℤ overall_volume +ℤ pos 50) 100 in
    if not (leb_ℤ (pos 0) vo && leb_ℤ vo (pos 100))
    then []
    else if active == 1
    then include_speaker machine_number vo ∷ []
    else if active == 0
    then []
    else if leb_ℤ overall_volume vo
    then include_speaker machine_number vo ∷ []
    else if leb_ℤ highest vo
    then include_speaker machine_number vo ∷ []
    else below_others machine_number vo overall_volume highest
