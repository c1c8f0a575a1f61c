-- ===== src/Ntfs/Mft.antt =====
-- core/ntfs.py, `_parse_mft_record`: the attributes of one MFT record, after its fixup.
pub mod Files
use quick_find.Prelude.{
  ℕ, zero, suc, ◌+◌, ◌*◌, ◌%◌, ◌^◌, Bool, true, false, not, ◌&&◌, ◌||◌, Option, none, some, List,
  [], ◌∷◌, ltb, leb, truthy, ◌==◌, bit_and, bit_or, if◌then◌else◌, length,
}
use quick_find.Text.{Text, codes, text_eq}
use quick_find.Ntfs.Bytes.{
  Bytes, Run, returned, raised, out_of_fuel, ◌>>=◌, byte, u16, u32, u64, slice,
}
use quick_find.Ntfs.Journal.{filetime_to_datetime, frn_index}
use quick_find.Ntfs.Fixup.{apply_usa_fixup}

pub record FileRecord : Type 0 where
  pub frn : ℕ
  pub parent_frn : ℕ
  pub name : Text
  pub attributes : ℕ
  pub timestamp : Option ℕ
  pub size : ℕ
  pub date_created : Option ℕ
  pub reparse_tag : ℕ
  pub has_extended_attributes : Bool
  pub mft_metadata : Bool

-- The variables of the loop. `best_namespace` is written there and never read, and left out.
pub record Found : Type 0 where
  pub name : Option Text
  pub parent_frn : ℕ
  pub date_created : Option ℕ
  pub date_modified : Option ℕ
  pub file_size : ℕ
  pub attributes : ℕ
  pub reparse_tag : ℕ
  pub has_extended_attributes : Bool

abbrev pub nothing_found : Found
nothing_found = record {
  name = none;
  parent_frn = 0;
  date_created = none;
  date_modified = none;
  file_size = 0;
  attributes = 0;
  reparse_tag = 0;
  has_extended_attributes = false;
}

unfoldable pub is_none : Option Text → Bool
is_none none = true
is_none (some t) = false

-- `if fn_name and fn_namespace != FILENAME_DOS` and what stands under it.
unfoldable pub take_name : Option Text → ℕ → ℕ → Found → Found
unfolding is_none
take_name none namespace parent s = s
take_name (some []) namespace parent s = s
take_name (some (c ∷ cs)) namespace parent s =
    if not (namespace == 2) && (is_none s.name || namespace == 1 || namespace == 3)
    then record s { name = some (c ∷ cs); parent_frn = parent }
    else s

module _ (decode : Bytes → Option Text) (to_local : ℕ → Option ℕ) where
  -- ATTR_STANDARD_INFORMATION.
  unfoldable pub standard_information : Bytes → ℕ → Found → Run Found
  unfolding filetime_to_datetime
  standard_information d offset s = u16 d (offset + 0x14) >>= λ content_offset.
      let content_start = offset + content_offset in
      if leb (content_start + 0x24) (length d)
      then (u64 d content_start >>= λ c_time. u64 d (content_start + 8) >>= λ m_time.
          u32 d (content_start + 0x20) >>= λ attributes. returned (record s {
            attributes = attributes;
            date_created = filetime_to_datetime decode to_local c_time;
            date_modified = filetime_to_datetime decode to_local m_time;
          }))
      else returned s

  -- ATTR_FILE_NAME.
  unfoldable pub file_name : Bytes → ℕ → Found → Run Found
  unfolding take_name slice
  file_name d offset s = u16 d (offset + 0x14) >>= λ content_offset.
      let content_start = offset + content_offset in
      if leb (content_start + 0x42) (length d)
      then (u64 d content_start >>= λ fn_parent. byte d (content_start + 0x40) >>= λ fn_name_len.
          byte d (content_start + 0x41) >>= λ fn_namespace.
          let fn_name_end = content_start + 0x42 + fn_name_len * 2 in
          if leb fn_name_end (length d) && ltb 0 fn_name_len
          then returned (
              take_name (decode (slice d (content_start + 0x42) fn_name_end)) fn_namespace
                (frn_index fn_parent) s)
          else returned s)
      else returned s

  -- ATTR_DATA: the unnamed stream only.
  unfoldable pub data_size : Bytes → ℕ → ℕ → Found → Run Found
  data_size d offset non_resident s = byte d (offset + 9) >>= λ attr_name_len.
      if not (attr_name_len == 0)
      then returned s
      else if truthy non_resident
      then (if leb (offset + 0x38) (length d)
          then (u64 d (offset + 0x30) >>= λ file_size.
              returned (record s { file_size = file_size }))
          else returned s)
      else (if leb (offset + 0x14) (length d)
          then (u32 d (offset + 0x10) >>= λ file_size.
              returned (record s { file_size = file_size }))
          else returned s)

  -- ATTR_REPARSE_POINT.
  unfoldable pub reparse_point : Bytes → ℕ → Found → Run Found
  reparse_point d offset s = u16 d (offset + 0x14) >>= λ content_offset.
      let content_start = offset + content_offset in
      if leb (content_start + 4) (length d)
      then (u32 d content_start >>= λ tag. returned (record s { reparse_tag = tag }))
      else returned s

  unfoldable pub read_attribute : Bytes → ℕ → ℕ → ℕ → Found → Run Found
  unfolding standard_information file_name data_size reparse_point
  read_attribute d offset attr_type non_resident s =
      if attr_type == 0x10 && not (truthy non_resident)
      then standard_information d offset s
      else if attr_type == 0x30 && not (truthy non_resident)
      then file_name d offset s
      else if attr_type == 0x80
      then data_size d offset non_resident s
      else if attr_type == 0xC0 && not (truthy non_resident)
      then reparse_point d offset s
      else if attr_type == 0xD0 || attr_type == 0xE0
      then returned
          (record s { has_extended_attributes = true; attributes = bit_or s.attributes 0x40000 })
      else returned s

  -- `while offset + 8 <= record_len`.
  unfoldable pub read_attributes : ℕ → Bytes → ℕ → Found → Run Found
  read_attributes zero d offset s = out_of_fuel
  read_attributes (suc f) d offset s =
      let go_on = λ (attr_len : ℕ). read_attributes f d (offset + attr_len) in
      if ltb (length d) (offset + 8)
      then returned s
      else (u32 d offset >>= λ attr_type.
          if attr_type == 0xFFFFFFFF || attr_type == 0
          then returned s
          else (u32 d (offset + 4) >>= λ attr_len.
              if ltb attr_len 16 || ltb (length d) (offset + attr_len)
              then returned s
              else (byte d (offset + 8) >>= λ non_resident.
                  read_attribute d offset attr_type non_resident s >>= λ s'. go_on attr_len s')))

  -- The record of a file with a name other than `.` and `..`.
  unfoldable pub file_record : ℕ → Bool → Found → Option Text → Option FileRecord
  unfolding text_eq
  file_record record_number is_dir s none = none
  file_record record_number is_dir s (some name) =
      if text_eq name (codes ".") || text_eq name (codes "..")
      then none
      else some (record {
        frn = record_number;
        parent_frn = s.parent_frn;
        name = name;
        attributes = if is_dir then bit_or s.attributes 0x10 else s.attributes;
        timestamp = s.date_modified;
        size = s.file_size;
        date_created = s.date_created;
        reparse_tag = s.reparse_tag;
        has_extended_attributes = s.has_extended_attributes;
        mft_metadata = true;
      })

  -- The loop has a round for each byte of the record and one more.
  unfoldable pub parse_fixed : ℕ → Bool × Bytes → Run (Option FileRecord)
  unfolding read_attributes file_record
  parse_fixed record_number (false, d) = returned none
  parse_fixed record_number (true, d) = u16 d 0x16 >>= λ flags.
      if not (truthy (bit_and flags 1))
      then returned none
      else (u64 d 0x20 >>= λ base_record.
          if not (base_record == 0)
          then returned none
          else (u16 d 0x14 >>= λ first_attr.
              read_attributes (length d + 1) d first_attr nothing_found >>= λ s.
              returned (file_record record_number (truthy (bit_and flags 2)) s s.name)))

  unfoldable pub parse_mft_record : Bytes → ℕ → ℕ → Run (Option FileRecord)
  unfolding parse_fixed apply_usa_fixup
  parse_mft_record d record_number bytes_per_sector =
      apply_usa_fixup d bytes_per_sector >>= λ fixed. parse_fixed record_number fixed
