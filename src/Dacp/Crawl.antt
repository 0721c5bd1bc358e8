-- ===== src/Dacp/Crawl.antt =====
-- Replies in the format that `dacp_tlv_crawl` reads, and what it reads in them.
use shairport_sync_for_openw.Prelude.{
  ℕ, ◌+◌, ◌-◌, ◌/◌, ◌%◌, ◌^◌, ◌≤◌, ◌<◌, ◌≡◌, ap, ◌∙◌, arith, true, some, List, [], ◌∷◌, ◌++◌,
  length, drop, length-append, drop-add, drop-append,
}
use shairport_sync_for_openw.Prelude.Int.{pos, ◌+ℤ◌, ◌-ℤ◌, leb_ℤ, signed32}
use shairport_sync_for_openw.Dacp.{word, word_at, dacp_tlv_crawl}

abbrev pub be32 : ℕ → List ℕ
be32 n = n / 2 ^ 24 % 256 ∷ n / 2 ^ 16 % 256 ∷ n / 2 ^ 8 % 256 ∷ n % 256 ∷ []

-- An entry: its type, the length of its contents, and these.
abbrev pub entry : ℕ → List ℕ → List ℕ
entry type contents = be32 type ++ (be32 (length contents) ++ contents)

pub word-be32 : (n : ℕ) (r : List ℕ) → n < 2 ^ 32 → word (be32 n ++ r) ≡ some n
unfolding word
word-be32 n r h = ap some (omega arith)

pub pos_add : (a b : ℕ) → pos a +ℤ pos b ≡ pos (a + b)
pos_add a b = ground arith

pub pos_sub : (a b : ℕ) → b ≤ a → pos a -ℤ pos b ≡ pos (a - b)
pos_sub a b h = ground arith

module _ (reply : List ℕ) where
  pub word_at-drop :
      (k : ℕ) {r : List ℕ} (n : ℕ)
      → drop k reply ≡ be32 n ++ r
      → n < 2 ^ 32
      → word_at reply (pos k) ≡ some n
  unfolding word_at
  word_at-drop k {r} n at h = ap word at ∙ word-be32 n r h

  pub drop_on :
      (k : ℕ) (xs : List ℕ) {r : List ℕ} → drop k reply ≡ xs ++ r → drop (k + length xs) reply ≡ r
  drop_on k xs {r} at = drop-add k (length xs) reply ∙ (ap (drop (length xs)) at ∙ drop-append xs r)

  pub crawl_header :
      (k type n : ℕ) (r : List ℕ)
      → drop k reply ≡ be32 type ++ (be32 n ++ r)
      → type < 2 ^ 32
      → n < 2 ^ 32
      → dacp_tlv_crawl reply (pos k) ≡ some (type, signed32 n, pos (k + 4) +ℤ (pos 4 +ℤ signed32 n))
  unfolding dacp_tlv_crawl
  crawl_header k type n r at ht hn = ground (
    arith,
    word_at-drop k type at ht,
    pos_add k 4,
    word_at-drop (k + 4) n (drop_on k (be32 type) at) hn,
  )

  pub crawl_entry :
      (k type : ℕ) (contents r : List ℕ)
      → drop k reply ≡ entry type contents ++ r
      → type < 2 ^ 32
      → length contents < 2 ^ 31
      → dacp_tlv_crawl reply (pos k)
        ≡ some (type, pos (length contents), pos (k + 8 + length contents))
  crawl_entry k type contents r at ht hl =
      ground (arith, crawl_header k type (length contents) (contents ++ r) at ht (omega arith))

  pub drop-entry :
      (k type : ℕ) (contents r : List ℕ)
      → drop k reply ≡ entry type contents ++ r
      → drop (k + 8 + length contents) reply ≡ r
  drop-entry k type contents r at =
      ap (λ j. drop j reply) (omega arith) ∙ drop_on k (entry type contents) at

  -- The contents of an entry stand eight bytes behind its start.
  pub drop_contents :
      (k type : ℕ) (contents r : List ℕ)
      → drop k reply ≡ entry type contents ++ r
      → drop (k + 8) reply ≡ contents ++ r
  drop_contents k type contents r at = drop_on k (be32 type ++ be32 (length contents)) at

-- What is left of a reply after an entry.
pub left_after :
    (type : ℕ) (contents r : List ℕ)
    → pos (length (entry type contents ++ r)) -ℤ (pos (length contents) +ℤ pos 8) ≡ pos (length r)
left_after type contents r = ground (arith, length-append contents r)

pub enough_left :
    (type : ℕ) (contents r : List ℕ)
    → leb_ℤ (pos 8) (pos (length (entry type contents ++ r))) ≡ true
enough_left type contents r = ground arith

pub back_to_contents : (k n : ℕ) → pos (k + 8 + n) -ℤ pos n ≡ pos (k + 8)
back_to_contents k n = ground arith
