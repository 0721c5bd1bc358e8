-- ===== src/Rtsp/Message/Parse.antt =====
-- What `msg_handle_line` makes of the lines that a request is written with.
use shairport_sync_for_openw.Prelude.{
  ℕ, ◌≡◌, refl, ap, false, none, some, List, [], ◌∷◌, ◌++◌, ◌==◌, All,
}
use shairport_sync_for_openw.Prelude.Int.{negsuc}
use shairport_sync_for_openw.Rtsp.Message.{
  Message, message, space, colon, protocol, push, skip_spaces, until_space, token_of, strtok,
  same_string, msg_add_header, split_header, starts_with_space, header_line, first_line,
  request_line, content_length, msg_get_header, size_of, msg_handle_line,
}
use shairport_sync_for_openw.Rtsp.Message.Lines.{IsPlain}

-- A word of a request line.
abbrev pub IsWord : ℕ → Type 0
IsWord x = IsPlain x × ((x == space) ≡ false)

-- A character of a header's name.
abbrev pub IsName : ℕ → Type 0
IsName x = IsPlain x × ((x == colon) ≡ false)

-- A word is not empty.
pub record Word : Type 0 where
  pub first : ℕ
  pub others : List ℕ
  pub first_IsWord : IsWord first
  pub others_IsWord : All IsWord others

abbrev pub letters : Word → List ℕ
letters w = w.first ∷ w.others

until_space-word : (l r : List ℕ) → All IsWord l → until_space (l ++ space ∷ r) ≡ (l, r)
unfolding until_space
until_space-word [] r h = refl
until_space-word (x ∷ l) r (p, h) = rw (p.1, until_space-word l r h) refl

strtok-word : (w : Word) (r : List ℕ) → strtok (letters w ++ space ∷ r) ≡ some (letters w, r)
unfolding strtok skip_spaces token_of
strtok-word w r =
    rw (w.first_IsWord.1)
      (ap (λ p. some p) (until_space-word (letters w) r (w.first_IsWord, w.others_IsWord)))

strtok-protocol : strtok protocol ≡ some (protocol, [])
unfolding strtok skip_spaces token_of until_space
strtok-protocol = refl

abbrev pub request_text : Word → Word → List ℕ
request_text method path = letters method ++ space ∷ (letters path ++ space ∷ protocol)

pub request_line-text :
    (method path : Word)
    → msg_handle_line none (request_text method path)
      ≡ (some (message (letters method) (letters path)), negsuc 0)
unfolding msg_handle_line request_line first_line same_string
request_line-text method path =
    rw
      (
        strtok-word method (letters path ++ space ∷ protocol),
        strtok-word path protocol,
        strtok-protocol,
      )
      refl

abbrev pub header_text : List ℕ × List ℕ → List ℕ
header_text (name, value) = name ++ colon ∷ space ∷ value

split_header-text :
    (name value : List ℕ)
    → All IsName name
    → split_header (header_text (name, value)) ≡ some (name, value)
unfolding split_header starts_with_space push
split_header-text [] value h = refl
split_header-text (x ∷ name) value (p, h) = rw (p.1, split_header-text name value h) refl

pub handle_header :
    (name value : List ℕ) (m : Message)
    → All IsName name
    → msg_handle_line (some m) (header_text (name, value))
      ≡ (some (msg_add_header name value m), negsuc 0)
unfolding msg_handle_line header_line
handle_header [] value m h = rw (split_header-text [] value h) refl
handle_header (x ∷ name) value m h = rw (split_header-text (x ∷ name) value h) refl

pub handle_empty :
    (m : Message)
    → msg_handle_line (some m) [] ≡ (some m, size_of (msg_get_header content_length m))
unfolding msg_handle_line
handle_empty m = refl
