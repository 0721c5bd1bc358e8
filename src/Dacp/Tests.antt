-- ===== src/Dacp/Tests.antt =====
-- Replies with a volume and with two speakers.
use shairport_sync_for_openw.Prelude.{
  ℕ, ◌-◌, ◌^◌, ◌≡◌, ◌≢◌, refl, arith, true, false, List, [], ◌∷◌, ◌++◌,
}
use shairport_sync_for_openw.Prelude.Int.{pos}
use shairport_sync_for_openw.Dacp.{
  done, unfinished, code, cmgt, casp, Speaker, found, client_volume, dacp_get_speaker_list,
  active_speakers, dacp_set_volume, speaker_volume, below_others, highest_other,
}
use shairport_sync_for_openw.Dacp.Crawl.{be32, entry}
use shairport_sync_for_openw.Dacp.SpeakerList
use shairport_sync_for_openw.Dacp.SpeakerList.{lists_bytes, speaker_list_read}
use shairport_sync_for_openw.Dacp.SetVolume.{heard_volume, obeyed, dacp_set_volume_heard}
use shairport_sync_for_openw.Dacp.Stuck.{client_volume_stuck}

abbrev mstt : ℕ
mstt = code b'm' b's' b't' b't'

abbrev two : List (List SpeakerList.Item)
two =
    (SpeakerList.number 0 7 ∷ SpeakerList.is_active ∷ SpeakerList.level 40 ∷ [])
    ∷ (SpeakerList.level 100 ∷ SpeakerList.number 1 2 ∷ [])
    ∷ []

abbrev kitchen : Speaker
kitchen = record { speaker_number = pos 7; active = true; volume = pos 40; name = [] }

abbrev hall : Speaker
hall = record { speaker_number = pos 4294967298; active = false; volume = pos 100; name = [] }

speaker_list_read_example :
    dacp_get_speaker_list 20 50 (entry casp (lists_bytes two)) ≡ done (found (hall ∷ kitchen ∷ []))
speaker_list_read_example =
    speaker_list_read 20 50 two (omega arith) (omega arith) (omega arith) (omega arith)

abbrev both : List Speaker
both = kitchen ∷ record hall { active = true } ∷ []

commands : dacp_set_volume (pos 7) (pos 20) (pos 60) both ≡ speaker_volume (pos 7) (pos 33) ∷ []
unfolding dacp_set_volume active_speakers highest_other below_others
commands = refl

both_active : active_speakers both ≢ 0
unfolding active_speakers
both_active = omega arith

dacp_set_volume_heard_example :
    heard_volume (
      obeyed
        (record { overall = pos 60; relative = pos 40 })
        (dacp_set_volume (pos 7) (pos 20) (pos 60) both))
    ≡ pos 20
dacp_set_volume_heard_example =
    dacp_set_volume_heard (pos 7) 20 60 (pos 40) both (omega arith) (omega arith) (omega arith)
      both_active

client_volume_stuck_example :
    client_volume 1000 (be32 cmgt ++ (be32 12 ++ (be32 mstt ++ (be32 (2 ^ 32 - 8) ++ []))))
    ≡ unfinished
client_volume_stuck_example =
    client_volume_stuck 1000 12 mstt [] (omega arith) (omega arith) (omega arith)

abbrev hi : List ℕ
hi = b'H' ∷ b'i' ∷ []
