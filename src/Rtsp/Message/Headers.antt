-- ===== src/Rtsp/Message/Headers.antt =====
-- A header that is added to a message is the one that is found, and texts without special characters.
use shairport_sync_for_openw.Prelude.{
  ℕ, suc, ◌≤◌, ◌<◌, ◌≡◌, inl, inr, refl, arith, Bool, true, false, not, ◌&&◌, none, some, List, [],
  ◌∷◌, ◌++◌, leb, ◌==◌, length, length-append, Bool-cases, All,
}
use shairport_sync_for_openw.Prelude.Int.{pos}
use shairport_sync_for_openw.Rtsp.Message.{
  Message, cr, lf, colon, lower, same_ignoring_case, max_headers, msg_add_header, find_header,
  msg_get_header, size_of, atoi,
}
use shairport_sync_for_openw.Rtsp.Message.Parse.{IsName}

same_ignoring_case_refl : (s : List ℕ) → same_ignoring_case s s ≡ true
unfolding same_ignoring_case
same_ignoring_case_refl [] = refl
same_ignoring_case_refl (x ∷ s) =
    let e : (lower x == lower x) ≡ true = ground arith in rw e (same_ignoring_case_refl s)

find_header-append :
    (name value : List ℕ) (hs : List (List ℕ × List ℕ))
    → find_header name hs ≡ none
    → find_header name (hs ++ (name, value) ∷ []) ≡ some value
unfolding find_header
find_header-append name value [] h = rw (same_ignoring_case_refl name) refl
find_header-append name value ((n, v) ∷ hs) h = elim (Bool-cases (same_ignoring_case n name)) [
  | inl e ↦ let g : some v ≡ none = rw e at h in absurd (ground arith)
  | inr e ↦
      let g : find_header name hs ≡ none = rw e at h in rw e (find_header-append name value hs g)
]

pub get-add :
    (name value : List ℕ) (m : Message)
    → msg_get_header name m ≡ none
    → length m.headers < 16
    → msg_get_header name (msg_add_header name value m) ≡ some value
unfolding msg_get_header msg_add_header
get-add name value m h k =
    let few : leb max_headers (length m.headers) ≡ false = ground arith in
    rw few (find_header-append name value m.headers h)

pub length-add :
    (name value : List ℕ) (m : Message)
    → length (msg_add_header name value m).headers ≤ suc (length m.headers)
unfolding msg_add_header
length-add name value m = elim (Bool-cases (leb max_headers (length m.headers))) [
  | inl full ↦ rw full (omega arith)
  | inr room ↦ rw room (omega (arith, length-append m.headers ((name, value) ∷ [])))
]

pub size_of-none : size_of none ≡ pos 0
unfolding size_of
size_of-none = refl

pub size_of-some : (value : List ℕ) → size_of (some value) ≡ atoi value
unfolding size_of
size_of-some value = refl

-- A test for the characters of a name.
abbrev pub is_name : List ℕ → Bool
is_name [] = true
is_name (x ∷ s) =
    not (x == cr) && (not (x == lf) && (not (x == 0) && (not (x == colon) && is_name s)))

pub IsName-of : (s : List ℕ) → is_name s ≡ true → All IsName s
IsName-of [] h = tt
IsName-of (x ∷ s) h =
    (((ground arith, ground arith, ground arith), ground arith), IsName-of s (ground arith))
