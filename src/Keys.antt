-- ===== src/Keys.antt =====
-- libuptiny/crypto_common.c: the search of a key by its hexadecimal id.
pub mod Laws
use uptiny.Base.{
  ℕ, zero, suc, ◌+◌, ◌*◌, ◌≡◌, Bool, true, false, not, Option, none, some, ℤ, pos, eqb_ℤ, Memory,
  Buffer, if◌then◌else◌,
}
use uptiny.Crypto.{Key, keyid_len}
use uptiny.Utils.Hex.{hex_bin_cmp}

-- The rounds left and `i`. Keys are addresses in the memory `heap`.
unfoldable pub find_key_from : ℕ → ℕ → Memory Key → Buffer → ℤ → Memory ℕ → Option ℕ
find_key_from zero i heap key_id len keys = none
find_key_from (suc n) i heap key_id len keys =
    elim (eqb_ℤ (hex_bin_cmp key_id len (heap (keys i)).keyid) (pos 0)) [
      | true ↦ some (keys i)
      | false ↦ find_key_from n (i + 1) heap key_id len keys
    ]

-- `none` is NULL.
unfoldable pub find_key : Memory Key → Buffer → ℤ → Memory ℕ → ℕ → Option ℕ
find_key heap key_id len keys num_keys =
    if not (eqb_ℤ len (pos (keyid_len * 2)))
    then none
    else find_key_from num_keys 0 heap key_id len keys
