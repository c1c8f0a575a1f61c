-- ===== src/Tests/Ntfs.antt =====
-- Runs of core/ntfs.py on a buffer with one record of version 2: the new name `hi` for file 11 in
-- directory 10.
use quick_find.Prelude.{ℕ, ◌≡◌, refl, false, Option, none, some, List, [], ◌∷◌, ◌++◌, arith}
use quick_find.Text.{Text, codes}
use quick_find.Index.Usn.{UsnRecord}
use quick_find.Ntfs.Bytes.{Bytes, Run, returned, byte, u16, u32, u64}
use quick_find.Ntfs.Fixup.{apply_usa_fixup}
use quick_find.Ntfs.Fixup.Total.{apply_usa_fixup-total}
use quick_find.Ntfs.Mft.{FileRecord, read_attribute, parse_mft_record}
use quick_find.Ntfs.Mft.Files.{Parsed, parse_mft_record-Safe}
use quick_find.Prelude.{Bool, length}
use quick_find.Ntfs.Journal.{Volume, Reply, buffer, read_records, read_usn_journal}
use quick_find.Ntfs.Journal.Total.{
  GivesRecords, Outcome, start_of, read_records-total, read_usn_journal-total,
}

-- UTF-16 text in which every other byte is zero.
abbrev decode : Bytes → Option Text
decode [] = some []
decode (c ∷ []) = none
decode (c ∷ d ∷ s) = elim (decode s) [ none ↦ none | some t ↦ some (c ∷ t) ]

abbrev to_local : ℕ → Option ℕ
to_local microseconds = some microseconds

abbrev quad : ℕ → Bytes
quad n = n ∷ 0 ∷ 0 ∷ 0 ∷ 0 ∷ 0 ∷ 0 ∷ 0 ∷ []

abbrev record_bytes : Bytes
record_bytes =
    (64 ∷ 0 ∷ 0 ∷ 0 ∷ 2 ∷ 0 ∷ 0 ∷ 0 ∷ [])
    ++ quad 11
    ++ quad 10
    ++ quad 90
    ++ quad 0
    ++ (0 ∷ 0x20 ∷ 0 ∷ 0x80 ∷ 0 ∷ 0 ∷ 0 ∷ 0 ∷ [])
    ++ (0 ∷ 0 ∷ 0 ∷ 0 ∷ 0x20 ∷ 0 ∷ 0 ∷ 0 ∷ [])
    ++ (4 ∷ 0 ∷ 60 ∷ 0 ∷ b'h' ∷ 0 ∷ b'i' ∷ 0 ∷ [])

read_records-total_example :
    GivesRecords decode to_local (read_records decode to_local 65 record_bytes 0)
read_records-total_example =
    read_records-total decode to_local 65 record_bytes 0 (omega arith) (omega arith)

abbrev volume : Volume
volume = record { next_usn = 90; journal_id = 1; journal_wrapped = false }

abbrev driver : ℕ → ℕ → Reply
driver usn journal_id = buffer (quad 154 ++ record_bytes)

read_usn_journal-total_example :
    (r : Volume × List UsnRecord) × (read_usn_journal decode to_local driver volume (some 90)
      ≡ returned r)
    × (r.0.journal_id ≡ 1)
    × Outcome (start_of volume (some 90)) (buffer (quad 154 ++ record_bytes)) r
read_usn_journal-total_example =
    read_usn_journal-total decode to_local driver volume (some 90) (omega arith) (omega arith)

-- A record of 64 bytes in one sector, with the signature, and nothing in use.
abbrev mft_bytes : Bytes
mft_bytes =
    (b'F' ∷ b'I' ∷ b'L' ∷ b'E' ∷ 48 ∷ 0 ∷ 2 ∷ 0 ∷ [])
    ++ quad 0
    ++ quad 0
    ++ quad 0
    ++ quad 0
    ++ quad 0
    ++ (7 ∷ 0 ∷ 9 ∷ 0 ∷ 0 ∷ 0 ∷ 0 ∷ 0 ∷ [])
    ++ (0 ∷ 0 ∷ 0 ∷ 0 ∷ 0 ∷ 0 ∷ 7 ∷ 0 ∷ [])

apply_usa_fixup-total_example :
    (ok : Bool) × (d' : Bytes) × (apply_usa_fixup mft_bytes 64 ≡ returned (ok, d'))
    × (length d' ≡ length mft_bytes)
apply_usa_fixup-total_example = apply_usa_fixup-total mft_bytes 64

-- A record in use, of 152 bytes in one sector, with the name `a` in directory 5.
abbrev file_bytes : Bytes
file_bytes =
    (b'F' ∷ b'I' ∷ b'L' ∷ b'E' ∷ 48 ∷ 0 ∷ 2 ∷ 0 ∷ [])
    ++ quad 0
    ++ (0 ∷ 0 ∷ 0 ∷ 0 ∷ 56 ∷ 0 ∷ 1 ∷ 0 ∷ [])
    ++ quad 0
    ++ quad 0
    ++ quad 0
    ++ (7 ∷ 0 ∷ 9 ∷ 0 ∷ 0 ∷ 0 ∷ 0 ∷ 0 ∷ [])
    ++ (0x30 ∷ 0 ∷ 0 ∷ 0 ∷ 96 ∷ 0 ∷ 0 ∷ 0 ∷ [])
    ++ quad 0
    ++ (0 ∷ 0 ∷ 0 ∷ 0 ∷ 24 ∷ 0 ∷ 0 ∷ 0 ∷ [])
    ++ quad 5
    ++ quad 0
    ++ quad 0
    ++ quad 0
    ++ quad 0
    ++ quad 0
    ++ quad 0
    ++ quad 0
    ++ (1 ∷ 1 ∷ b'a' ∷ 0 ∷ 0 ∷ 0 ∷ 7 ∷ 0 ∷ [])

abbrev name_of : Run (Option FileRecord) → Text
name_of (returned (some file)) = file.name
name_of _ = []

-- What is read from it.
parsed_name : name_of (parse_mft_record decode to_local file_bytes 40 152) ≡ codes "a"
unfolding parse_mft_record u16 byte u64 u32 read_attribute
parsed_name = refl

parse_mft_record-Safe_example : Parsed 40 (parse_mft_record decode to_local file_bytes 40 152)
parse_mft_record-Safe_example = parse_mft_record-Safe decode to_local file_bytes 40 152
