-- ===== src/Ntfs/Fixup.antt =====
-- core/ntfs.py, `_apply_usa_fixup`: the last two bytes of each sector of an MFT record are put back
-- from the update sequence array.
pub mod Total
use quick_find.Prelude.{
  ℕ, zero, suc, ◌+◌, ◌-◌, ◌*◌, Bool, true, false, not, ◌||◌, List, [], ◌∷◌, ◌++◌, ltb,
  if◌then◌else◌, length, take, drop,
}
use quick_find.Text.{codes, text_eq}
use quick_find.Ntfs.Bytes.{Bytes, Run, returned, ◌>>=◌, u16, slice}

-- `data[i:i + 2] = two`, for two bytes inside the data.
unfoldable pub put_two : Bytes → ℕ → Bytes → Bytes
put_two d i two = take i d ++ two ++ drop (i + 2) d

-- The loop over the sectors from the `i`th on, `left` of them. A record that is refused keeps the
-- sectors that were restored before.
unfoldable pub restore_sectors : ℕ → ℕ → ℕ → Bytes → ℕ → Bytes → Bool × Bytes
unfolding put_two slice text_eq
restore_sectors zero bytes_per_sector usa_offset expected i d = (true, d)
restore_sectors (suc left) bytes_per_sector usa_offset expected i d =
    let sector_end = i * bytes_per_sector - 2 in
    let original = slice d (usa_offset + i * 2) (usa_offset + i * 2 + 2) in
    let rest =
      restore_sectors left bytes_per_sector usa_offset expected (i + 1)
        (put_two d sector_end original) in
    if ltb (i * bytes_per_sector) 2
    then (false, d)
    else if ltb (length d) (sector_end + 2)
    then (true, d)
    else if text_eq (slice d sector_end (sector_end + 2)) expected
    then rest
    else (false, d)

unfoldable pub apply_usa_fixup : Bytes → ℕ → Run (Bool × Bytes)
unfolding restore_sectors slice text_eq
apply_usa_fixup d bytes_per_sector =
    if ltb (length d) 48 || not (text_eq (take 4 d) (codes "FILE"))
    then returned (false, d)
    else (u16 d 4 >>= λ usa_offset. u16 d 6 >>= λ usa_size.
        if ltb usa_size 2 || ltb (length d) (usa_offset + usa_size * 2)
        then returned (false, d)
        else returned (
            restore_sectors (usa_size - 1) bytes_per_sector usa_offset
              (slice d usa_offset (usa_offset + 2)) 1 d))
