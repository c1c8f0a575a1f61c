-- ===== src/Ntfs/Journal.antt =====
-- core/ntfs.py, `NTFSVolume.read_usn_journal`: the buffer that the driver returns, cut into records.
pub mod Total
use quick_find.Prelude.{
  ℕ, zero, suc, ◌+◌, ◌*◌, ◌/◌, ◌%◌, ◌^◌, Bool, true, false, not, ◌&&◌, ◌||◌, Option, none, some,
  List, [], ◌∷◌, ltb, leb, ◌==◌, if◌then◌else◌, length,
}
use quick_find.Text.{Text}
use quick_find.Ntfs.Bytes.{Bytes, Run, returned, raised, out_of_fuel, ◌>>=◌, u16, u32, u64, slice}
use quick_find.Index.Usn.{UsnRecord}

-- The fields of a record that the loop reads, before the name is decoded.
pub record Raw : Type 0 where
  pub raw_frn : ℕ
  pub raw_parent : ℕ
  pub raw_usn : ℕ
  pub raw_timestamp : ℕ
  pub raw_reason : ℕ
  pub raw_attributes : ℕ
  pub name_len : ℕ
  pub name_offset : ℕ

-- `x & 0x0000FFFFFFFFFFFF`.
abbrev pub frn_index : ℕ → ℕ
frn_index x = x % 2 ^ 48

-- USN_RECORD_V3 and V4, with 128-bit file ids of which the low half is read.
unfoldable pub read_v3 : Bytes → ℕ → Run Raw
read_v3 d offset = do
  frn_lo ← u64 d (offset + 8)
  parent_lo ← u64 d (offset + 24)
  usn ← u64 d (offset + 40)
  timestamp_raw ← u64 d (offset + 48)
  reason ← u32 d (offset + 56)
  attributes ← u32 d (offset + 64)
  name_len ← u16 d (offset + 68)
  name_offset ← u16 d (offset + 70)
  returned (record {
    raw_frn = frn_index frn_lo;
    raw_parent = frn_index parent_lo;
    raw_usn = usn;
    raw_timestamp = timestamp_raw;
    raw_reason = reason;
    raw_attributes = attributes;
    name_len = name_len;
    name_offset = name_offset;
  })

-- USN_RECORD_V2.
unfoldable pub read_v2 : Bytes → ℕ → Run Raw
read_v2 d offset = do
  frn ← u64 d (offset + 8)
  parent_frn ← u64 d (offset + 16)
  usn ← u64 d (offset + 24)
  timestamp_raw ← u64 d (offset + 32)
  reason ← u32 d (offset + 40)
  attributes ← u32 d (offset + 52)
  name_len ← u16 d (offset + 56)
  name_offset ← u16 d (offset + 58)
  returned (record {
    raw_frn = frn_index frn;
    raw_parent = frn_index parent_frn;
    raw_usn = usn;
    raw_timestamp = timestamp_raw;
    raw_reason = reason;
    raw_attributes = attributes;
    name_len = name_len;
    name_offset = name_offset;
  })

-- `decode` is `bytes.decode('utf-16-le')`, none where it raises `UnicodeDecodeError`; `to_local`
-- turns microseconds since 1601 into local time, none where the platform refuses.
module _ (decode : Bytes → Option Text) (to_local : ℕ → Option ℕ) where
  unfoldable pub filetime_to_datetime : ℕ → Option ℕ
  filetime_to_datetime zero = none
  filetime_to_datetime (suc ft) = to_local (suc ft / 10)

  unfoldable pub record_name : Bytes → ℕ → Raw → Text
  unfolding slice
  record_name d offset raw =
      let name_start = offset + raw.name_offset in
      let name_end = name_start + raw.name_len in
      if leb name_end (length d) && ltb 0 raw.name_len
      then elim (decode (slice d name_start name_end)) [ none ↦ [] | some name ↦ name ]
      else []

  -- `if name: records.append(...)`.
  unfoldable pub add_record : Raw → Text → List UsnRecord → List UsnRecord
  unfolding filetime_to_datetime
  add_record raw [] records = records
  add_record raw (c ∷ cs) records =
      record {
        usn = raw.raw_usn;
        frn = raw.raw_frn;
        parent_frn = raw.raw_parent;
        timestamp = filetime_to_datetime raw.raw_timestamp;
        reason = raw.raw_reason;
        attributes = raw.raw_attributes;
        name = c ∷ cs;
      }
      ∷ records

  -- `while offset < returned`, over a buffer cut to `returned` bytes.
  unfoldable pub read_records : ℕ → Bytes → ℕ → Run (List UsnRecord)
  read_records zero d offset = out_of_fuel
  read_records (suc f) d offset =
      let one = λ (record_len : ℕ) (raw : Raw).
        (let rest = read_records f d (offset + record_len) in
          rest >>= λ records. returned (add_record raw (record_name d offset raw) records)) in
      let body = λ (record_len : ℕ) (major_ver : ℕ).
        (if major_ver == 3 || major_ver == 4
          then (if ltb (length d) (offset + 76)
              then returned []
              else read_v3 d offset >>= λ raw. one record_len raw)
          else if ltb (length d) (offset + 64)
          then returned []
          else read_v2 d offset >>= λ raw. one record_len raw) in
      if not (ltb offset (length d)) || ltb (length d) (offset + 4)
      then returned []
      else (u32 d offset >>= λ record_len.
          if record_len == 0 || ltb (length d) (offset + record_len) || ltb (length d) (offset + 6)
          then returned []
          else u16 d (offset + 4) >>= λ major_ver. body record_len major_ver)

-- The part of `NTFSVolume` that belongs to its journal.
pub record Volume : Type 0 where
  pub next_usn : ℕ
  pub journal_id : ℕ
  pub journal_wrapped : Bool

-- What `DeviceIoControl` gives: an error code, or the bytes that were returned.
pub data Reply : Type 0 where
  failed : ℕ → Reply
  buffer : Bytes → Reply

abbrev error_journal_entry_deleted : ℕ
error_journal_entry_deleted = 1181

unfoldable pub start_reading : Volume → Option ℕ → Volume
start_reading v none = record v { journal_wrapped = false }
start_reading v (some usn) = record v { journal_wrapped = false; next_usn = usn }

-- `ioctl` is given the position and the journal's id.
module _ (decode : Bytes → Option Text) (to_local : ℕ → Option ℕ) (ioctl : ℕ → ℕ → Reply) where
  unfoldable pub read_reply : Volume → Reply → Run (Volume × List UsnRecord)
  read_reply v (failed err) =
      returned
        (if err == error_journal_entry_deleted then record v { journal_wrapped = true } else v, [])
  read_reply v (buffer d) =
      if leb (length d) 8
      then returned (v, [])
      else (u64 d 0 >>= λ next. read_records decode to_local (length d) d 8 >>= λ records.
          returned (record v { next_usn = next }, records))

  -- `struct.pack` of the position and the journal's id raises for a number beyond 64 bits.
  unfoldable pub read_usn_journal : Volume → Option ℕ → Run (Volume × List UsnRecord)
  unfolding start_reading read_reply
  read_usn_journal v start_usn =
      let v' = start_reading v start_usn in
      if ltb v'.next_usn (2 ^ 64) && ltb v'.journal_id (2 ^ 64)
      then read_reply v' (ioctl v'.next_usn v'.journal_id)
      else raised
