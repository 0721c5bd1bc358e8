-- ===== src/Dacp/Stuck.antt =====
-- Replies that `dacp_get_client_volume` and `dacp_get_speaker_list` do not cope with.
use mathlib.Core.List.{append_assoc}
use shairport_sync_for_openw.Prelude.{
  ℕ, zero, suc, ◌+◌, ◌-◌, ◌^◌, ◌≤◌, ◌<◌, ◌≡◌, ◌≢◌, refl, ap, ◌∙◌, arith, true, some, List, [], ◌∷◌,
  ◌++◌, length, drop, take, All, All-append, length-append, sym, ◌/◌, ◌%◌,
}
use shairport_sync_for_openw.Prelude.Int.{ℤ, pos, negsuc, ◌+ℤ◌, ◌-ℤ◌, leb_ℤ, signed32}
use shairport_sync_for_openw.Dacp.{
  unfinished, cmgt, cmvo, minm, dacp_tlv_crawl, volume_loop, client_volume, Speaker, copied,
  name_at, set_item,
}
use shairport_sync_for_openw.Dacp.Crawl.{be32, crawl_header}
use shairport_sync_for_openw.Dacp.Volume.{volume_step, client_volume_step}

-- A length that is read as -8: the entry ends where it begins.
abbrev minus_eight : ℕ
minus_eight = 2 ^ 32 - 8

minus_zero : (le : ℤ) → le -ℤ (negsuc 7 +ℤ pos 8) ≡ le
minus_zero (pos n) = ground arith
minus_zero (negsuc n) = ground arith

same_place : (k : ℕ) → pos (k + 4) +ℤ (pos 4 +ℤ signed32 minus_eight) ≡ pos k
same_place k = ground arith

volume_loop_stuck :
    (reply : List ℕ) (fuel k type : ℕ) (r : List ℕ) (le v : ℤ)
    → drop k reply ≡ be32 type ++ (be32 minus_eight ++ r)
    → type < 2 ^ 32
    → type ≢ cmvo
    → leb_ℤ (pos 8) le ≡ true
    → volume_loop fuel reply (pos k) le v ≡ unfinished
volume_loop_stuck reply zero k type r le v at ht other enough = unfold volume_loop in refl
volume_loop_stuck reply (suc fuel) k type r le v at ht other enough =
    let here : dacp_tlv_crawl reply (pos k) ≡ some (type, negsuc 7, pos k) =
      crawl_header reply k type minus_eight r at ht (omega arith)
      ∙ ap (λ p. some (type, negsuc 7, p)) (same_place k) in
    volume_step reply fuel (pos k) le v type (negsuc 7) (pos k) v enough here (ground arith)
    ∙ (ap (λ l. volume_loop fuel reply (pos k) l v) (minus_zero le)
        ∙ volume_loop_stuck reply fuel k type r le v at ht other enough)

contents_at_eight : (n : ℕ) → n < 2 ^ 31 → pos 4 +ℤ (pos 4 +ℤ signed32 n) -ℤ signed32 n ≡ pos 8
contents_at_eight n h = ground arith

-- If the first item of a reply, not a volume, has a length that is read as -8, the loop of
-- `dacp_get_client_volume` reads it again and again: no fuel is enough.
pub client_volume_stuck :
    (fuel n type : ℕ) (r : List ℕ)
    → n < 2 ^ 31
    → type < 2 ^ 32
    → type ≢ cmvo
    → client_volume fuel (be32 cmgt ++ (be32 n ++ (be32 type ++ (be32 minus_eight ++ r))))
      ≡ unfinished
client_volume_stuck fuel n type r hn ht other =
    let reply = be32 cmgt ++ (be32 n ++ (be32 type ++ (be32 minus_eight ++ r))) in
    client_volume_step fuel reply (signed32 n) (pos 4 +ℤ (pos 4 +ℤ signed32 n)) (ground arith) (
      crawl_header reply 0 cmgt n (be32 type ++ (be32 minus_eight ++ r)) refl (omega arith)
        (omega arith))
    ∙ (ap (λ p. volume_loop fuel reply p (pos (length reply) -ℤ pos 8) (negsuc 0))
          (contents_at_eight n hn)
        ∙ volume_loop_stuck reply fuel 8 type r (pos (length reply) -ℤ pos 8) (negsuc 0) refl ht
            other (ground arith))

-- Bytes of a name, none of which is zero.
abbrev pub IsText : List ℕ → Type 0
IsText = All (λ c. 0 < c)

copied_on :
    (room : ℕ) (xs : List ℕ) (r : List ℕ)
    → IsText xs
    → length xs < room
    → copied room (xs ++ (0 ∷ r)) ≡ some xs
unfolding copied
copied_on zero xs r t h = elim h [ ]
copied_on (suc room) [] r t h = refl
copied_on (suc room) (zero ∷ xs) r t h = absurd (omega arith)
copied_on (suc room) (suc c ∷ xs) r t h = rw (copied_on room xs r t.1 (omega arith), copied)

take-all : (n : ℕ) (xs : List ℕ) → length xs ≤ n → take n xs ≡ xs
take-all zero [] h = refl
take-all zero (x ∷ xs) h = elim h [ ]
take-all (suc n) [] h = refl
take-all (suc n) (x ∷ xs) h = ap (λ l. x ∷ l) (take-all n xs (omega arith))

short_length : (n : ℕ) → n < 2 ^ 24 → n / 2 ^ 24 % 256 ≡ 0
short_length n h = omega arith

-- The name of a speaker is copied up to a zero byte, and not by the length of its entry: where
-- another entry follows with less than 2 ^ 24 bytes, the type of that entry is added to the name.
pub name_runs_on :
    (reply : List ℕ) (k type n : ℕ) (text r : List ℕ) (s : Speaker)
    → drop k reply ≡ text ++ (be32 type ++ (be32 n ++ r))
    → IsText text
    → IsText (be32 type)
    → n < 2 ^ 24
    → length text + 4 ≤ 127
    → set_item reply minm (pos k) s ≡ some (record s { name = text ++ be32 type })
unfolding set_item name_at
name_runs_on reply k type n text r s at ht htype hn fits =
    let name = text ++ be32 type in
    let tail : List ℕ = n / 2 ^ 16 % 256 ∷ n / 2 ^ 8 % 256 ∷ n % 256 ∷ r in
    let short : length name ≤ 127 = omega (arith, length-append text (be32 type)) in
    let source : drop k reply ≡ name ++ (0 ∷ tail) =
      at
      ∙ (ap (λ z. text ++ (be32 type ++ (z ∷ tail))) (short_length n hn)
          ∙ sym (append_assoc text (be32 type) (0 ∷ tail))) in
    let read : copied 128 (drop k reply) ≡ some name =
      ap (copied 128) source
      ∙ copied_on 128 name tail (All-append _ text (be32 type) ht htype) (omega arith) in
    rw (read, take-all 127 name short)
