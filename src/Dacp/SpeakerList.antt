-- ===== src/Dacp/SpeakerList.antt =====
-- The speakers in a reply to `dacp_get_speaker_list`.
use mathlib.Core.Path.{ap₂}
use mathlib.Core.List.{append_assoc, append-nil}
use shairport_sync_for_openw.Prelude.{
  ℕ, suc, ◌+◌, ◌-◌, ◌*◌, ◌^◌, ◌≤◌, ◌<◌, ◌≡◌, ◌≢◌, refl, sym, ap, ◌∙◌, arith, true, false, some,
  List, [], ◌∷◌, ◌++◌, leb, ◌==◌, if◌then◌else◌, length, drop, length-append, All,
}
use shairport_sync_for_openw.Prelude.Int.{ℤ, pos, ◌+ℤ◌, ◌-ℤ◌, leb_ℤ, signed32, signed64}
use shairport_sync_for_openw.Dacp.{
  done, cmvo, minm, msma, caia, mdcl, casp, dacp_tlv_crawl, read_signed, long_at, Speaker,
  no_speaker, set_item, set_last, found, too_many, speaker_loop, dacp_get_speaker_list,
}
use shairport_sync_for_openw.Dacp.Crawl.{
  be32, entry, word_at-drop, drop_on, crawl_entry, drop-entry, drop_contents, left_after,
  enough_left, back_to_contents, pos_add,
}

-- What a dictionary says of a speaker, its name left aside.
pub data Item : Type 0 where
  number : ℕ → ℕ → Item
  level : ℕ → Item
  is_active : Item
  other : ℕ → List ℕ → Item

abbrev pub item_type : Item → ℕ
item_type (number s v) = msma
item_type (level v) = cmvo
item_type is_active = caia
item_type (other type contents) = type

abbrev pub item_contents : Item → List ℕ
item_contents (number s v) = be32 s ++ be32 v
item_contents (level v) = be32 v
item_contents is_active = 1 ∷ []
item_contents (other type contents) = contents

abbrev pub item_bytes : Item → List ℕ
item_bytes i = entry (item_type i) (item_contents i)

abbrev pub IsItem : Item → Type 0
IsItem (number s v) = (s < 2 ^ 32) × (v < 2 ^ 32)
IsItem (level v) = v < 2 ^ 32
IsItem is_active = Unit
IsItem (other type contents) =
    (type < 2 ^ 32)
    × (type ≢ mdcl)
    × (type ≢ minm)
    × (type ≢ cmvo)
    × (type ≢ msma)
    × (type ≢ caia)
    × (length contents < 2 ^ 31)

abbrev pub told : Item → Speaker → Speaker
told (number s v) speaker = record speaker { speaker_number = signed64 (s * 2 ^ 32 + v) }
told (level v) speaker = record speaker { volume = signed32 v }
told is_active speaker = record speaker { active = true }
told (other type contents) speaker = speaker

abbrev pub items_bytes : List Item → List ℕ
items_bytes [] = []
items_bytes (i ∷ is) = item_bytes i ++ items_bytes is

abbrev pub all_told : List Item → Speaker → Speaker
all_told [] speaker = speaker
all_told (i ∷ is) speaker = all_told is (told i speaker)

abbrev pub Fits : List (List Item) → Type 0
Fits ds = All (λ is. All IsItem is × (length (items_bytes is) < 2 ^ 31)) ds

-- The rounds that the dictionaries take.
abbrev pub rounds : List (List Item) → ℕ
rounds [] = 0
rounds (is ∷ ds) = suc (length is + rounds ds)

abbrev pub lists_bytes : List (List Item) → List ℕ
lists_bytes [] = []
lists_bytes (is ∷ ds) = entry mdcl (items_bytes is) ++ lists_bytes ds

-- The speakers, the last one first.
abbrev pub speakers_told : List (List Item) → List Speaker → List Speaker
speakers_told [] speakers = speakers
speakers_told (is ∷ ds) speakers = speakers_told ds (all_told is no_speaker ∷ speakers)

module _ (reply : List ℕ) where
  set_item-told :
      (k : ℕ) (i : Item) (r : List ℕ) (s : Speaker)
      → IsItem i
      → drop k reply ≡ item_contents i ++ r
      → set_item reply (item_type i) (pos k) s ≡ some (told i s)
  unfolding set_item read_signed long_at
  set_item-told k (number a b) r s h at = rw (
    word_at-drop reply k a at h.0,
    pos_add k 4,
    word_at-drop reply (k + 4) b (drop_on reply k (be32 a) at) h.1,
  )
  set_item-told k (level v) r s h at = rw (word_at-drop reply k v at h)
  set_item-told k is_active r s h at = refl
  set_item-told k (other type contents) r s h at = ground arith

  set_last-some :
      (type : ℕ) (t : ℤ) (s s' : Speaker) (rest : List Speaker)
      → set_item reply type t s ≡ some s'
      → set_last reply type t (s ∷ rest) ≡ some (s' ∷ rest)
  unfolding set_last
  set_last-some type t s s' rest h = rw (h, set_last)

  item_step :
      (fuel max : ℕ) (sp le : ℤ) (speakers speakers' : List Speaker) (type : ℕ) (size sp' : ℤ)
      → leb_ℤ (pos 8) le ≡ true
      → dacp_tlv_crawl reply sp ≡ some (type, size, sp')
      → (type == mdcl) ≡ false
      → set_last reply type (sp' -ℤ size) speakers ≡ some speakers'
      → speaker_loop (suc fuel) max reply sp le speakers
        ≡ speaker_loop fuel max reply sp' (le -ℤ (size +ℤ pos 8)) speakers'
  unfolding speaker_loop
  item_step fuel max sp le speakers speakers' type size sp' l c d i = rw (l, c, d, i)

  open_step :
      (fuel max : ℕ) (sp le : ℤ) (speakers : List Speaker) (size sp' : ℤ)
      → leb_ℤ (pos 8) le ≡ true
      → dacp_tlv_crawl reply sp ≡ some (mdcl, size, sp')
      → speaker_loop (suc fuel) max reply sp le speakers ≡ (
          if length speakers == max
          then done too_many
          else speaker_loop fuel max reply (sp' -ℤ size) (le -ℤ pos 8) (no_speaker ∷ speakers))
  unfolding speaker_loop
  open_step fuel max sp le speakers size sp' l c = rw (l, c)

  item_type-ne-mdcl : (i : Item) → IsItem i → (item_type i == mdcl) ≡ false
  item_type-ne-mdcl (number s v) h = refl
  item_type-ne-mdcl (level v) h = refl
  item_type-ne-mdcl is_active h = refl
  item_type-ne-mdcl (other type contents) h = ground arith

  item-lt : (i : Item) → IsItem i → (item_type i < 2 ^ 32) × (length (item_contents i) < 2 ^ 31)
  item-lt (number s v) h = omega arith
  item-lt (level v) h = omega arith
  item-lt is_active h = omega arith
  item-lt (other type contents) h = omega arith

  -- The items of one dictionary, with `r` behind them.
  items_loop :
      (fuel max k : ℕ) (is : List Item) (r : List ℕ) (s : Speaker) (rest : List Speaker)
      → All IsItem is
      → drop k reply ≡ items_bytes is ++ r
      → speaker_loop
          (length is + fuel)
          max
          reply
          (pos k)
          (pos (length (items_bytes is ++ r)))
          (s ∷ rest)
        ≡ speaker_loop fuel max reply
            (pos (k + length (items_bytes is)))
            (pos (length r))
            (all_told is s ∷ rest)
  items_loop fuel max k [] r s rest a at =
      ap₂ (λ f j. speaker_loop f max reply (pos j) (pos (length r)) (s ∷ rest)) (omega arith)
        (omega arith)
  items_loop fuel max k (i ∷ is) r s rest a at =
      let t = item_type i in
      let c = item_contents i in
      let n = length c in
      let more = items_bytes is ++ r in
      let at' : drop k reply ≡ entry t c ++ more =
        at ∙ append_assoc (entry t c) (items_bytes is) r in
      let (ht, hn) = item-lt i a.0 in
      let set_it = set_item-told (k + 8) i more s a.0 (drop_contents reply k t c more at') in
      let joined : items_bytes (i ∷ is) ++ r ≡ entry t c ++ more =
        append_assoc (entry t c) (items_bytes is) r in
      let rounds : length (i ∷ is) + fuel ≡ suc (length is + fuel) = omega arith in
      let after : k + 8 + n + length (items_bytes is) ≡ k + length (items_bytes (i ∷ is)) =
        omega (arith, length-append c (items_bytes is)) in
      ap₂ (λ f l. speaker_loop f max reply (pos k) (pos (length l)) (s ∷ rest)) rounds joined
      ∙ (item_step (length is + fuel) max (pos k) (pos (length (entry t c ++ more))) (s ∷ rest)
            (told i s ∷ rest) t (pos n) (pos (k + 8 + n)) (enough_left t c more)
            (crawl_entry reply k t c more at' ht hn) (item_type-ne-mdcl i a.0)
            (ap (λ p. set_last reply t p (s ∷ rest)) (back_to_contents k n)
              ∙ set_last-some t (pos (k + 8)) s (told i s) rest set_it)
          ∙ (ap
                (λ l.
                  speaker_loop (length is + fuel) max reply (pos (k + 8 + n)) l (told i s ∷ rest))
                (left_after t c more)
              ∙ (items_loop fuel max (k + 8 + n) is r (told i s) rest a.1
                    (drop-entry reply k t c more at')
                  ∙ ap
                      (λ j.
                        speaker_loop fuel max reply (pos j) (pos (length r))
                          (all_told is (told i s) ∷ rest))
                      after)))

  loop_end :
      (fuel max : ℕ) (sp : ℤ) (speakers : List Speaker)
      → speaker_loop (suc fuel) max reply sp (pos 0) speakers ≡ done (found speakers)
  unfolding speaker_loop
  loop_end fuel max sp speakers = refl

  lists_loop :
      (fuel max k : ℕ) (ds : List (List Item)) (speakers : List Speaker)
      → Fits ds
      → length ds + length speakers ≤ max
      → drop k reply ≡ lists_bytes ds
      → speaker_loop
          (rounds ds + suc fuel)
          max
          reply
          (pos k)
          (pos (length (lists_bytes ds)))
          speakers
        ≡ done (found (speakers_told ds speakers))
  lists_loop fuel max k [] speakers a room at =
      ap (λ f. speaker_loop f max reply (pos k) (pos 0) speakers) {x = 0 + suc fuel} (omega arith)
      ∙ loop_end fuel max (pos k) speakers
  lists_loop fuel max k (is ∷ ds) speakers a room at =
      let c = items_bytes is in
      let r = lists_bytes ds in
      let n = length c in
      let f = rounds ds + suc fuel in
      let below : (length speakers == max) ≡ false = ground arith in
      let all : rounds (is ∷ ds) + suc fuel ≡ suc (length is + f) = omega arith in
      let left : pos (length (entry mdcl c ++ r)) -ℤ pos 8 ≡ pos (length (c ++ r)) = ground arith in
      ap (λ g. speaker_loop g max reply (pos k) (pos (length (entry mdcl c ++ r))) speakers) all
      ∙ (open_step (length is + f) max (pos k) (pos (length (entry mdcl c ++ r))) speakers (pos n)
            (pos (k + 8 + n)) (enough_left mdcl c r)
            (crawl_entry reply k mdcl c r at (omega arith) a.0.1)
          ∙ rw below (
              ap₂ (λ p l. speaker_loop (length is + f) max reply p l (no_speaker ∷ speakers))
                (back_to_contents k n) left
              ∙ (items_loop f max (k + 8) is r no_speaker speakers a.0.0
                    (drop_contents reply k mdcl c r at)
                  ∙ lists_loop fuel max (k + 8 + n) ds (all_told is no_speaker ∷ speakers) a.1
                      (omega arith) (drop-entry reply k mdcl c r at))))

list_step :
    (fuel max : ℕ) (reply : List ℕ) (size sp : ℤ)
    → leb 8 (length reply) ≡ true
    → dacp_tlv_crawl reply (pos 0) ≡ some (casp, size, sp)
    → dacp_get_speaker_list fuel max reply
      ≡ speaker_loop fuel max reply (sp -ℤ size) (pos (length reply) -ℤ pos 8) []
unfolding dacp_get_speaker_list
list_step fuel max reply size sp l c = rw (l, c)

-- From a reply of less than 2 ^ 31 bytes that lists dictionaries without names, no more than there
-- is room for, and with fuel for more rounds than entries, `dacp_get_speaker_list` finds a speaker
-- for each dictionary, the last one first, with the number, the volume and the state that the
-- dictionary tells last.
pub speaker_list_read :
    (fuel max : ℕ) (ds : List (List Item))
    → Fits ds
    → length (lists_bytes ds) < 2 ^ 31
    → length ds ≤ max
    → rounds ds < fuel
    → dacp_get_speaker_list fuel max (entry casp (lists_bytes ds))
      ≡ done (found (speakers_told ds []))
speaker_list_read fuel max ds a small room h =
    let reply = entry casp (lists_bytes ds) in
    let n = length (lists_bytes ds) in
    let at : drop 0 reply ≡ entry casp (lists_bytes ds) ++ [] =
      sym (append-nil (entry casp (lists_bytes ds))) in
    let enough : fuel ≡ rounds ds + suc (fuel - rounds ds - 1) = omega arith in
    list_step fuel max reply (pos n) (pos (8 + n)) (ground arith)
      (crawl_entry reply 0 casp (lists_bytes ds) [] at (omega arith) small)
    ∙ (ap₂ (λ sp le. speaker_loop fuel max reply sp le []) (back_to_contents 0 n) (ground arith)
        ∙ (ap (λ f. speaker_loop f max reply (pos 8) (pos n) []) enough
            ∙ lists_loop reply (fuel - rounds ds - 1) max 8 ds [] a (omega arith) refl))
