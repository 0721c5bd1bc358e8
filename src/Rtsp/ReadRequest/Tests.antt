-- ===== src/Rtsp/ReadRequest/Tests.antt =====
-- The theorems on requests of src/rtsp.c at a request with five bytes of content.
use shairport_sync_for_openw.Prelude.{refl, List, [], ◌∷◌}
use shairport_sync_for_openw.Rtsp.Message.{Message, message, content_length}
use shairport_sync_for_openw.Rtsp.Message.Parse.{Word, letters}
use shairport_sync_for_openw.Rtsp.ReadRequest.Header.{Header}
use shairport_sync_for_openw.Rtsp.ReadRequest.Content.{Piece}

-- "GET".
abbrev get : Word
get = record {
  first = 71;
  others = 69 ∷ 84 ∷ [];
  first_IsWord = ((refl, refl, refl), refl);
  others_IsWord = (((refl, refl, refl), refl), (((refl, refl, refl), refl), tt));
}

-- "/".
abbrev root : Word
root = record {
  first = 47;
  others = [];
  first_IsWord = ((refl, refl, refl), refl);
  others_IsWord = tt;
}

-- "Content-Length: 5".
abbrev five : Header
five = record {
  name = content_length;
  value = 53 ∷ [];
  name_IsName = (
    ((refl, refl, refl), refl),
    (
      ((refl, refl, refl), refl),
      (
        ((refl, refl, refl), refl),
        (
          ((refl, refl, refl), refl),
          (
            ((refl, refl, refl), refl),
            (
              ((refl, refl, refl), refl),
              (
                ((refl, refl, refl), refl),
                (
                  ((refl, refl, refl), refl),
                  (
                    ((refl, refl, refl), refl),
                    (
                      ((refl, refl, refl), refl),
                      (
                        ((refl, refl, refl), refl),
                        (
                          ((refl, refl, refl), refl),
                          (((refl, refl, refl), refl), (((refl, refl, refl), refl), tt)),
                        ),
                      ),
                    ),
                  ),
                ),
              ),
            ),
          ),
        ),
      ),
    ),
  );
  value_IsPlain = ((refl, refl, refl), tt);
}

abbrev blank : Message
blank = message (letters get) (letters root)

abbrev pieces : List Piece
pieces = record { first = 3; others = 4 ∷ [] } ∷ record { first = 5; others = [] } ∷ []
