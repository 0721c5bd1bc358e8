-- ===== src/Rtsp/Message.antt =====
-- Lines and messages of src/rtsp.c: `nextline`, `msg_init`, `msg_add_header`, `msg_get_header` and
-- `msg_handle_line`. A character is a number. The library functions are modelled as far as they are
-- used; `atoi` does not overflow here.
pub mod Headers
pub mod Lines
pub mod Numbers
pub mod Parse
pub mod Tests
use shairport_sync_for_openw.Prelude.{
  ℕ, zero, suc, ◌+◌, ◌-◌, ◌*◌, Bool, true, false, ◌&&◌, ◌||◌, not, Option, none, some, List, [],
  ◌∷◌, ◌++◌, ltb, leb, ◌==◌, if◌then◌else◌, take, drop, length, ◌>>=◌,
}
use shairport_sync_for_openw.Prelude.Int.{ℤ, pos, negsuc}

-- `rtsp_message`, less its number and its reference count.
pub record Message : Type 0 where
  pub headers : List (List ℕ × List ℕ)
  pub method : List ℕ
  pub path : List ℕ
  pub content : List ℕ

abbrev pub cr : ℕ
cr = 13

abbrev pub lf : ℕ
lf = 10

abbrev pub space : ℕ
space = 32

abbrev pub colon : ℕ
colon = 58

-- One more character in front of a part that is split off.
pub push : ℕ → Option (List ℕ × List ℕ) → Option (List ℕ × List ℕ)
push x none = none
push x (some (l, r)) = some (x ∷ l, r)

after_cr : List ℕ → List ℕ
after_cr [] = []
after_cr (x ∷ r) = if x == lf then r else x ∷ r

-- The line at the start of the buffer, and what follows its end, which is a carriage return, a line
-- feed, or both.
pub nextline : List ℕ → Option (List ℕ × List ℕ)
nextline [] = none
nextline (x ∷ r) =
    let rest = nextline r in
    if x == cr then some ([], after_cr r) else if x == lf then some ([], r) else push x rest

-- A buffer as a string ends before its first 0.
pub c_string : List ℕ → List ℕ
c_string [] = []
c_string (x ∷ r) = let rest = c_string r in if x == 0 then [] else x ∷ rest

pub skip_spaces : List ℕ → List ℕ
skip_spaces [] = []
skip_spaces (x ∷ r) = let rest = skip_spaces r in if x == space then rest else x ∷ r

-- A token up to a space, and what follows the space.
pub until_space : List ℕ → List ℕ × List ℕ
until_space [] = ([], [])
until_space (x ∷ r) = let (l, rest) = until_space r in if x == space then ([], r) else (x ∷ l, rest)

token_of : List ℕ → Option (List ℕ × List ℕ)
token_of [] = none
token_of (x ∷ r) = some (until_space (x ∷ r))

-- `strtok_r` with " ".
pub strtok : List ℕ → Option (List ℕ × List ℕ)
strtok s = token_of (skip_spaces s)

pub same_string : List ℕ → List ℕ → Bool
same_string [] [] = true
same_string (x ∷ r) (y ∷ s) = let rest = same_string r s in if x == y then rest else false
same_string _ _ = false

pub lower : ℕ → ℕ
lower x = if leb 65 x && leb x 90 then x + 32 else x

-- `!strcasecmp`.
pub same_ignoring_case : List ℕ → List ℕ → Bool
same_ignoring_case [] [] = true
same_ignoring_case (x ∷ r) (y ∷ s) =
    let rest = same_ignoring_case r s in if lower x == lower y then rest else false
same_ignoring_case _ _ = false

abbrev pub max_headers : ℕ
max_headers = 16

-- A header beyond the sixteenth is left out.
pub msg_add_header : List ℕ → List ℕ → Message → Message
msg_add_header name value m =
    if leb max_headers (length m.headers)
    then m
    else record m { headers = m.headers ++ (name, value) ∷ [] }

find_header : List ℕ → List (List ℕ × List ℕ) → Option (List ℕ)
find_header name [] = none
find_header name ((n, v) ∷ hs) =
    let rest = find_header name hs in if same_ignoring_case n name then some v else rest

pub msg_get_header : List ℕ → Message → Option (List ℕ)
msg_get_header name m = find_header name m.headers

starts_with_space : List ℕ → Bool
starts_with_space [] = false
starts_with_space (x ∷ r) = x == space

-- Splits at the first ": ".
pub split_header : List ℕ → Option (List ℕ × List ℕ)
split_header [] = none
split_header (x ∷ r) =
    let rest = split_header r in
    if x == colon && starts_with_space r then some ([], drop 1 r) else push x rest

digits : ℕ → List ℕ → ℕ
digits n [] = n
digits n (x ∷ r) =
    let rest = digits (n * 10 + (x - 48)) r in if leb 48 x && leb x 57 then rest else n

negative : ℕ → ℤ
negative zero = pos 0
negative (suc n) = negsuc n

signed_digits : List ℕ → ℤ
signed_digits [] = pos 0
signed_digits (x ∷ r) =
    if x == 45
    then negative (digits 0 r)
    else if x == 43
    then pos (digits 0 r)
    else pos (digits 0 (x ∷ r))

pub atoi : List ℕ → ℤ
unfolding digits negative signed_digits
atoi s = signed_digits (skip_spaces s)

-- "RTSP/1.0".
abbrev pub protocol : List ℕ
protocol = 82 ∷ 84 ∷ 83 ∷ 80 ∷ 47 ∷ 49 ∷ 46 ∷ 48 ∷ []

-- "Content-Length".
abbrev pub content_length : List ℕ
content_length = 67 ∷ 111 ∷ 110 ∷ 116 ∷ 101 ∷ 110 ∷ 116 ∷ 45 ∷ 76 ∷ 101 ∷ 110 ∷ 103 ∷ 116 ∷ 104 ∷ []

abbrev pub message : List ℕ → List ℕ → Message
message method path = record {
  headers = [];
  method = take 15 method;
  path = take 255 path;
  content = [];
}

-- The three tokens of the first line.
pub request_line : List ℕ → Option Message
request_line line = do
  (method, r) ← strtok line
  (path, s) ← strtok r
  (version, t) ← strtok s
  if same_string version protocol then some (message method path) else none

pub size_of : Option (List ℕ) → ℤ
size_of none = pos 0
size_of (some value) = atoi value

header_line : Message → Option (List ℕ × List ℕ) → Option Message × ℤ
header_line m none = (none, pos 0)
header_line m (some (name, value)) = (some (msg_add_header name value m), negsuc 0)

first_line : Option Message → Option Message × ℤ
first_line none = (none, pos 0)
first_line (some m) = (some m, negsuc 0)

-- The message, absent on a failure, and the response: -1 for more lines to come, or the length of
-- the content at the empty line.
pub msg_handle_line : Option Message → List ℕ → Option Message × ℤ
msg_handle_line none line = first_line (request_line line)
msg_handle_line (some m) [] = (some m, size_of (msg_get_header content_length m))
msg_handle_line (some m) (x ∷ r) = header_line m (split_header (x ∷ r))
