-- ===== src/Rtsp/ReadRequest/Content.antt =====
-- The content of a request, in however many pieces it arrives.
use shairport_sync_for_openw.Prelude.{
  ℕ, ◌<◌, ◌≤◌, ◌≡◌, true, false, List, [], ◌∷◌, ◌++◌, arith, length, length-append, ltb,
}
use shairport_sync_for_openw.Rtsp.Message.{Message}
use shairport_sync_for_openw.Rtsp.ReadRequest.{Input, piece, got, read_content}
use shairport_sync_for_openw.Rtsp.ReadRequest.Header.{Header}

-- A piece that is not the end of the stream.
pub record Piece : Type 0 where
  pub first : ℕ
  pub others : List ℕ

abbrev pub arrive : List Piece → List Input
arrive [] = []
arrive (p ∷ ps) = piece (p.first ∷ p.others) ∷ arrive ps

abbrev pub joined : List ℕ → List Piece → List ℕ
joined buf [] = buf
joined buf (p ∷ ps) = joined (buf ++ p.first ∷ p.others) ps

joined-longer : (buf : List ℕ) (ps : List Piece) → length buf ≤ length (joined buf ps)
joined-longer buf [] = omega arith
joined-longer buf (p ∷ ps) =
    omega
      (arith, joined-longer (buf ++ p.first ∷ p.others) ps, length-append buf (p.first ∷ p.others))

joined-strictly :
    (buf : List ℕ) (p : Piece) (ps : List Piece) → length buf < length (joined buf (p ∷ ps))
joined-strictly buf p ps =
    omega
      (arith, joined-longer (buf ++ p.first ∷ p.others) ps, length-append buf (p.first ∷ p.others))

-- Pieces that come to the announced length together are the content, in their order.
pub read_content_pieces :
    (size : ℕ) (m : Message) (buf : List ℕ) (ps : List Piece)
    → length (joined buf ps) ≡ size
    → read_content size m buf (arrive ps) ≡ got (record m { content = joined buf ps })
unfolding read_content
read_content_pieces size m buf [] e = let t : ltb (length buf) size ≡ false = ground arith in simp t
read_content_pieces size m buf (p ∷ ps) e =
    let t : ltb (length buf) size ≡ true = ground (arith, joined-strictly buf p ps) in
    simp t (read_content_pieces size m (buf ++ p.first ∷ p.others) ps e)
