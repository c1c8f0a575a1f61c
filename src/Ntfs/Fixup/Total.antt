-- ===== src/Ntfs/Fixup/Total.antt =====
-- The fixup of an MFT record reads and writes inside the record only.
use quick_find.Prelude.{
  ℕ, zero, suc, ◌+◌, ◌-◌, ◌*◌, ◌≡◌, ◌≤◌, refl, ◌∙◌, Bool, false, not, ◌||◌, ◌++◌, ltb, length, take,
  drop, length-append, length-take, length-drop, Bool-cases, inl, inr, arith,
}
use quick_find.Text.{codes, text_eq}
use quick_find.Ntfs.Bytes.{Bytes, returned, slice, u16-Returns}
use quick_find.Ntfs.Fixup.{put_two, restore_sectors, apply_usa_fixup}

length-put_two :
    (d two : Bytes) (i : ℕ)
    → i + 2 ≤ length d
    → length two ≡ 2
    → length (put_two d i two) ≡ length d
unfolding put_two
length-put_two d two i inside h = omega (
  arith,
  length-append (take i d ++ two) (drop (i + 2) d),
  length-append (take i d) two,
  length-take i d,
  length-drop (i + 2) d,
)

length-slice : (d : Bytes) (i n : ℕ) → i + n ≤ length d → length (slice d i (i + n)) ≡ n
unfolding slice
length-slice d i n h = omega (arith, length-take (i + n - i) (drop i d), length-drop i d)

length-restore_sectors :
    (left bytes_per_sector usa_offset : ℕ) (expected : Bytes) (i : ℕ) (d : Bytes)
    → usa_offset + (i + left) * 2 ≤ length d
    → let (ok, d') = restore_sectors left bytes_per_sector usa_offset expected i d in
      length d' ≡ length d
unfolding restore_sectors
length-restore_sectors zero b o e i d h = refl
length-restore_sectors (suc left) b o e i d h = elim (Bool-cases (ltb (i * b) 2)) [
  | inl small ↦ rw (small, restore_sectors) refl
  | inr at ↦ elim (Bool-cases (ltb (length d) (i * b - 2 + 2))) [
    | inl beyond ↦ rw (at, beyond, restore_sectors) refl
    | inr inside ↦ elim (Bool-cases (text_eq (slice d (i * b - 2) (i * b - 2 + 2)) e)) [
      | inr torn ↦ rw (at, inside, torn, restore_sectors) refl
      | inl whole ↦
          let two = slice d (o + i * 2) (o + i * 2 + 2) in
          let same : length (put_two d (i * b - 2) two) ≡ length d =
            length-put_two d two (i * b - 2) (ground arith)
              (length-slice d (o + i * 2) 2 (omega arith)) in
          rw (at, inside, whole, restore_sectors)
            (length-restore_sectors left b o e (i + 1) (put_two d (i * b - 2) two)
                (omega (arith, same))
              ∙ same)
    ]
  ]
]

-- The fixup of any bytes, for any sector size, raises no error, and leaves as many bytes as there were, whether it accepts the record or not.
pub apply_usa_fixup-total :
    (d : Bytes) (bytes_per_sector : ℕ)
    → (ok : Bool) × (d' : Bytes) × (apply_usa_fixup d bytes_per_sector ≡ returned (ok, d'))
      × (length d' ≡ length d)
unfolding apply_usa_fixup
apply_usa_fixup-total d b =
    elim (Bool-cases (ltb (length d) 48 || not (text_eq (take 4 d) (codes "FILE")))) [
      | inl refused ↦ (false, d, rw refused refl, refl)
      | inr signed ↦
          let (o, eo) = u16-Returns d 4 (ground arith) in
          let (n, en) = u16-Returns d 6 (ground arith) in
          elim (Bool-cases (ltb n 2 || ltb (length d) (o + n * 2))) [
            | inl outside ↦ (false, d, rw (signed, eo, en, outside) refl, refl)
            | inr fits ↦
                let r = restore_sectors (n - 1) b o (slice d o (o + 2)) 1 d in
                (
                  r.0,
                  r.1,
                  rw (signed, eo, en, fits) refl,
                  length-restore_sectors (n - 1) b o (slice d o (o + 2)) 1 d (ground arith),
                )
          ]
    ]
