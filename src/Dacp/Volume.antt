-- ===== src/Dacp/Volume.antt =====
-- The volume in a reply to `dacp_get_client_volume`.
use mathlib.Core.Path.{ap₂}
use mathlib.Core.List.{append-nil}
use shairport_sync_for_openw.Prelude.{
  ℕ, zero, suc, ◌+◌, ◌^◌, ◌<◌, ◌≡◌, ◌≢◌, refl, sym, ap, ◌∙◌, arith, true, some, List, [], ◌∷◌, ◌++◌,
  leb, ◌==◌, if◌then◌else◌, length, drop, All,
}
use shairport_sync_for_openw.Prelude.Int.{ℤ, pos, negsuc, ◌+ℤ◌, ◌-ℤ◌, leb_ℤ, signed32}
use shairport_sync_for_openw.Dacp.{
  done, cmgt, cmvo, dacp_tlv_crawl, read_signed, volume_loop, client_volume, dacp_get_client_volume,
}
use shairport_sync_for_openw.Dacp.Crawl.{
  be32, entry, word_at-drop, crawl_entry, drop-entry, drop_contents, left_after, enough_left,
  back_to_contents,
}

-- An item of the reply: the volume, or an item of another type.
pub data Item : Type 0 where
  volume : ℕ → Item
  other : ℕ → List ℕ → Item

abbrev pub item_bytes : Item → List ℕ
item_bytes (volume v) = entry cmvo (be32 v)
item_bytes (other type contents) = entry type contents

abbrev pub items_bytes : List Item → List ℕ
items_bytes [] = []
items_bytes (i ∷ is) = item_bytes i ++ items_bytes is

abbrev pub IsItem : Item → Type 0
IsItem (volume v) = v < 2 ^ 32
IsItem (other type contents) = (type < 2 ^ 32) × (type ≢ cmvo) × (length contents < 2 ^ 31)

-- The last volume among the items.
abbrev pub last_volume : ℤ → List Item → ℤ
last_volume v [] = v
last_volume v (volume w ∷ is) = last_volume (signed32 w) is
last_volume v (other type contents ∷ is) = last_volume v is

module _ (reply : List ℕ) where
  pub volume_step :
      (fuel : ℕ) (sp le v : ℤ) (type : ℕ) (size sp' v' : ℤ)
      → leb_ℤ (pos 8) le ≡ true
      → dacp_tlv_crawl reply sp ≡ some (type, size, sp')
      → (if type == cmvo then read_signed reply (sp' -ℤ size) else some v) ≡ some v'
      → volume_loop (suc fuel) reply sp le v ≡ volume_loop fuel reply sp' (le -ℤ (size +ℤ pos 8)) v'
  unfolding volume_loop
  volume_step fuel sp le v type size sp' v' l c r = rw (l, c, r)

  read_volume :
      (k w : ℕ) (r : List ℕ)
      → drop k reply ≡ be32 w ++ r
      → w < 2 ^ 32
      → read_signed reply (pos k) ≡ some (signed32 w)
  unfolding read_signed
  read_volume k w r at h = rw (word_at-drop reply k w at h, read_signed)

  volume_loop_items :
      (fuel k : ℕ) (v : ℤ) (is : List Item)
      → All IsItem is
      → drop k reply ≡ items_bytes is
      → length is < fuel
      → volume_loop fuel reply (pos k) (pos (length (items_bytes is))) v ≡ done (last_volume v is)
  volume_loop_items zero k v is a at h = elim h [ ]
  volume_loop_items (suc fuel) k v [] a at h = unfold volume_loop in refl
  volume_loop_items (suc fuel) k v (volume w ∷ is) a at h =
      let rest = items_bytes is in
      volume_step fuel (pos k) (pos (length (entry cmvo (be32 w) ++ rest))) v cmvo (pos 4)
        (pos (k + 8 + 4)) (signed32 w) (enough_left cmvo (be32 w) rest)
        (crawl_entry reply k cmvo (be32 w) rest at (omega arith) (omega arith))
        (ap (read_signed reply) (back_to_contents k 4)
          ∙ read_volume (k + 8) w rest (drop_contents reply k cmvo (be32 w) rest at) a.0)
      ∙ (ap (λ l. volume_loop fuel reply (pos (k + 8 + 4)) l (signed32 w))
            (left_after cmvo (be32 w) rest)
          ∙ volume_loop_items fuel (k + 8 + 4) (signed32 w) is a.1
              (drop-entry reply k cmvo (be32 w) rest at) (omega arith))
  volume_loop_items (suc fuel) k v (other type contents ∷ is) a at h =
      let rest = items_bytes is in
      let n = length contents in
      volume_step fuel (pos k) (pos (length (entry type contents ++ rest))) v type (pos n)
        (pos (k + 8 + n)) v (enough_left type contents rest)
        (crawl_entry reply k type contents rest at a.0.0 a.0.2) (ground arith)
      ∙ (ap (λ l. volume_loop fuel reply (pos (k + 8 + n)) l v) (left_after type contents rest)
          ∙ volume_loop_items fuel (k + 8 + n) v is a.1 (drop-entry reply k type contents rest at)
              (omega arith))

pub client_volume_step :
    (fuel : ℕ) (reply : List ℕ) (size sp : ℤ)
    → leb 8 (length reply) ≡ true
    → dacp_tlv_crawl reply (pos 0) ≡ some (cmgt, size, sp)
    → client_volume fuel reply
      ≡ volume_loop fuel reply (sp -ℤ size) (pos (length reply) -ℤ pos 8) (negsuc 0)
unfolding client_volume
client_volume_step fuel reply size sp l c = rw (l, c)

-- A reply with the items in it.
abbrev pub volume_reply : List Item → List ℕ
volume_reply is = entry cmgt (items_bytes is)

-- From a reply of less than 2 ^ 31 bytes that lists items, with fuel for more rounds than items,
-- `dacp_get_client_volume` reads the last volume in it, and -1 if there is none.
pub client_volume_read :
    (fuel : ℕ) (is : List Item)
    → All IsItem is
    → length (items_bytes is) < 2 ^ 31
    → length is < fuel
    → dacp_get_client_volume fuel 200 (volume_reply is) ≡ done (last_volume (negsuc 0) is)
unfolding dacp_get_client_volume
client_volume_read fuel is a small h =
    let reply = volume_reply is in
    let at : drop 0 reply ≡ entry cmgt (items_bytes is) ++ [] =
      sym (append-nil (entry cmgt (items_bytes is))) in
    let c = crawl_entry reply 0 cmgt (items_bytes is) [] at (omega arith) small in
    let inner = volume_loop_items reply fuel 8 (negsuc 0) is a refl h in
    client_volume_step fuel reply (pos (length (items_bytes is)))
      (pos (8 + length (items_bytes is))) (ground arith) c
    ∙ (ap₂ (λ sp le. volume_loop fuel reply sp le (negsuc 0))
          (back_to_contents 0 (length (items_bytes is))) (ground arith)
        ∙ inner)
