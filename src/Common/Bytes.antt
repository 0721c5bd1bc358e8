-- ===== src/Common/Bytes.antt =====
-- `nctohs` and `nctohl` of src/common.c: numbers in network order.
use shairport_sync_for_openw.Prelude.{ℕ, ◌+◌, ◌*◌, List, get_or}

-- The bytes stand at an offset, and there are enough of them.
unfoldable pub nctohs : ℕ → List ℕ → ℕ
nctohs i p = get_or p i 0 * 256 + get_or p (i + 1) 0

unfoldable pub nctohl : ℕ → List ℕ → ℕ
nctohl i p =
    ((get_or p i 0 * 256 + get_or p (i + 1) 0) * 256 + get_or p (i + 2) 0) * 256
    + get_or p (i + 3) 0
