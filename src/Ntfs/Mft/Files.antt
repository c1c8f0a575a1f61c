-- ===== src/Ntfs/Mft/Files.antt =====
-- What parsing an MFT record gives, for any bytes.
use quick_find.Prelude.{
  bit_and, ℕ, zero, suc, ◌+◌, ◌*◌, ◌^◌, ◌<◌, ◌≤◌, ◌≡◌, ◌≢◌, refl, ◌⊎◌, inl, inr, Bool, true, false,
  not, ◌&&◌, ◌||◌, Option, none, some, [], ◌∷◌, ltb, leb, truthy, ◌==◌, if◌then◌else◌, length,
  Bool-cases, arith,
}
use quick_find.Text.{Text, codes, text_eq, text_eq_iff}
use quick_find.Ntfs.Bytes.{
  Bytes, Run, returned, raised, out_of_fuel, ◌>>=◌, byte, u16, u32, u64, slice,
}
use quick_find.Ntfs.Journal.{frn_index}
use quick_find.Ntfs.Fixup.Total.{apply_usa_fixup-total}
use quick_find.Ntfs.Mft.{
  FileRecord, Found, nothing_found, is_none, take_name, standard_information, file_name, data_size,
  reparse_point, read_attribute, read_attributes, file_record, parse_fixed, parse_mft_record,
}

-- A run that ends, and gives a value of which `P` holds where it raises no error.
abbrev pub Safe : {A : Type 0} → (A → Type 0) → Run A → Type 0
Safe P (returned a) = P a
Safe P raised = Unit
Safe P out_of_fuel = ⊥

bind-Safe :
    {A B : Type 0} {P : A → Type 0} (Q : B → Type 0) (k : A → Run B) (r : Run A)
    → Safe P r
    → ((a : A) → P a → Safe Q (k a))
    → Safe Q (r >>= k)
bind-Safe Q k (returned a) h f = f a h
bind-Safe Q k raised h f = tt
bind-Safe Q k out_of_fuel h f = absurd h

if-Safe :
    {A : Type 0} (P : A → Type 0) (x y : Run A) (b : Bool)
    → (b ≡ true → Safe P x)
    → (b ≡ false → Safe P y)
    → Safe P (if b then x else y)
if-Safe P x y true hx hy = hx refl
if-Safe P x y false hx hy = hy refl

abbrev AnyNumber : ℕ → Type 0
AnyNumber n = Unit

byte-Safe : (d : Bytes) (i : ℕ) → Safe AnyNumber (byte d i)
unfolding byte
byte-Safe [] i = tt
byte-Safe (b ∷ d) zero = tt
byte-Safe (b ∷ d) (suc i) = byte-Safe d i

u16-Safe : (d : Bytes) (i : ℕ) → Safe AnyNumber (u16 d i)
unfolding u16
u16-Safe d i =
    bind-Safe _ _ (byte d i) (byte-Safe d i)
      λ a _. bind-Safe _ _ (byte d (i + 1)) (byte-Safe d (i + 1)) λ b _. tt

u32-Safe : (d : Bytes) (i : ℕ) → Safe AnyNumber (u32 d i)
unfolding u32
u32-Safe d i =
    bind-Safe _ _ (u16 d i) (u16-Safe d i)
      λ a _. bind-Safe _ _ (u16 d (i + 2)) (u16-Safe d (i + 2)) λ b _. tt

u64-Safe : (d : Bytes) (i : ℕ) → Safe AnyNumber (u64 d i)
unfolding u64
u64-Safe d i =
    bind-Safe _ _ (u32 d i) (u32-Safe d i)
      λ a _. bind-Safe _ _ (u32 d (i + 4)) (u32-Safe d (i + 4)) λ b _. tt

-- What the loop keeps of its variables.
abbrev IsFound : Found → Type 0
IsFound s = (s.parent_frn < 2 ^ 48) × (s.name ≢ some [])

take_name-IsFound :
    (o : Option Text) (namespace parent : ℕ) (s : Found)
    → parent < 2 ^ 48
    → IsFound s
    → IsFound (take_name o namespace parent s)
unfolding take_name
take_name-IsFound none n p s hp h = h
take_name-IsFound (some []) n p s hp h = h
take_name-IsFound (some (c ∷ cs)) n p s hp h =
    elim (Bool-cases (not (n == 2) && (is_none s.name || n == 1 || n == 3))) [
      | inl e ↦ rw (e, take_name) (hp, λ q. cc)
      | inr e ↦ rw (e, take_name) h
    ]

module _ (decode : Bytes → Option Text) (to_local : ℕ → Option ℕ) where
  standard_information-Safe :
      (d : Bytes) (o : ℕ) (s : Found)
      → IsFound s
      → Safe IsFound (standard_information decode to_local d o s)
  unfolding standard_information
  standard_information-Safe d o s h =
      bind-Safe _ _ (u16 d (o + 0x14)) (u16-Safe d (o + 0x14)) λ c _.
        if-Safe _ _ _ (leb (o + c + 0x24) (length d))
          (λ _. bind-Safe _ _ (u64 d (o + c)) (u64-Safe d (o + c)) λ ct _.
            bind-Safe _ _ (u64 d (o + c + 8)) (u64-Safe d (o + c + 8))
              λ mt _. bind-Safe _ _ (u32 d (o + c + 0x20)) (u32-Safe d (o + c + 0x20)) λ a _. h)
          (λ _. h)

  file_name-Safe :
      (d : Bytes) (o : ℕ) (s : Found) → IsFound s → Safe IsFound (file_name decode to_local d o s)
  unfolding file_name
  file_name-Safe d o s h = bind-Safe _ _ (u16 d (o + 0x14)) (u16-Safe d (o + 0x14)) λ c _.
      if-Safe _ _ _ (leb (o + c + 0x42) (length d))
        (λ _. bind-Safe _ _ (u64 d (o + c)) (u64-Safe d (o + c)) λ p _.
          bind-Safe _ _ (byte d (o + c + 0x40)) (byte-Safe d (o + c + 0x40)) λ l _.
            bind-Safe _ _ (byte d (o + c + 0x41)) (byte-Safe d (o + c + 0x41)) λ n _.
              if-Safe _ _ _ (leb (o + c + 0x42 + l * 2) (length d) && ltb 0 l)
                (λ _.
                  take_name-IsFound (decode (slice d (o + c + 0x42) (o + c + 0x42 + l * 2))) n
                    (frn_index p) s (omega arith) h)
                (λ _. h))
        (λ _. h)

  data_size-Safe :
      (d : Bytes) (o n : ℕ) (s : Found)
      → IsFound s
      → Safe IsFound (data_size decode to_local d o n s)
  unfolding data_size
  data_size-Safe d o n s h = bind-Safe _ _ (byte d (o + 9)) (byte-Safe d (o + 9)) λ l _.
      if-Safe _ _ _ (not (l == 0)) (λ _. h)
        λ _.
          if-Safe _ _ _ (truthy n)
            (λ _.
              if-Safe _ _ _ (leb (o + 0x38) (length d))
                (λ _. bind-Safe _ _ (u64 d (o + 0x30)) (u64-Safe d (o + 0x30)) λ z _. h) (λ _. h))
            (λ _.
              if-Safe _ _ _ (leb (o + 0x14) (length d))
                (λ _. bind-Safe _ _ (u32 d (o + 0x10)) (u32-Safe d (o + 0x10)) λ z _. h) (λ _. h))

  reparse_point-Safe :
      (d : Bytes) (o : ℕ) (s : Found)
      → IsFound s
      → Safe IsFound (reparse_point decode to_local d o s)
  unfolding reparse_point
  reparse_point-Safe d o s h = bind-Safe _ _ (u16 d (o + 0x14)) (u16-Safe d (o + 0x14)) λ c _.
      if-Safe _ _ _ (leb (o + c + 4) (length d))
        (λ _. bind-Safe _ _ (u32 d (o + c)) (u32-Safe d (o + c)) λ z _. h) (λ _. h)

  read_attribute-Safe :
      (d : Bytes) (o t n : ℕ) (s : Found)
      → IsFound s
      → Safe IsFound (read_attribute decode to_local d o t n s)
  unfolding read_attribute
  read_attribute-Safe d o t n s h =
      if-Safe _ _ _ (t == 0x10 && not (truthy n)) (λ _. standard_information-Safe d o s h)
        λ _.
          if-Safe _ _ _ (t == 0x30 && not (truthy n)) (λ _. file_name-Safe d o s h)
            λ _.
              if-Safe _ _ _ (t == 0x80) (λ _. data_size-Safe d o n s h)
                λ _.
                  if-Safe _ _ _ (t == 0xC0 && not (truthy n)) (λ _. reparse_point-Safe d o s h)
                    λ _. if-Safe _ _ _ (t == 0xD0 || t == 0xE0) (λ _. h) (λ _. h)

  read_attributes-Safe :
      (f : ℕ) (d : Bytes) (o : ℕ) (s : Found)
      → 1 ≤ f
      → length d < o + f
      → IsFound s
      → Safe IsFound (read_attributes decode to_local f d o s)
  unfolding read_attributes
  read_attributes-Safe zero d o s some_fuel enough h = absurd (omega arith)
  read_attributes-Safe (suc f) d o s some_fuel enough h =
      if-Safe _ _ _ (ltb (length d) (o + 8)) (λ _. h)
        λ _. bind-Safe _ _ (u32 d o) (u32-Safe d o) λ t _.
          if-Safe _ _ _ (t == 0xFFFFFFFF || t == 0) (λ _. h)
            λ _. bind-Safe _ _ (u32 d (o + 4)) (u32-Safe d (o + 4)) λ l _.
              if-Safe _ _ _ (ltb l 16 || ltb (length d) (o + l)) (λ _. h)
                λ fits. bind-Safe _ _ (byte d (o + 8)) (byte-Safe d (o + 8)) λ n _.
                  bind-Safe _ _ (read_attribute decode to_local d o t n s)
                    (read_attribute-Safe d o t n s h)
                    λ s' h'. read_attributes-Safe f d (o + l) s' (ground arith) (ground arith) h'

-- What is known of the file with a record of a given number, if the record is one.
abbrev pub IsFile : ℕ → Option FileRecord → Type 0
IsFile record_number none = Unit
IsFile record_number (some r) =
    (r.frn ≡ record_number)
    × (r.parent_frn < 2 ^ 48)
    × (r.name ≢ [])
    × (r.name ≢ codes ".")
    × (r.name ≢ codes "..")

module _ (decode : Bytes → Option Text) (to_local : ℕ → Option ℕ) where
  file_record-IsFile :
      (n : ℕ) (is_dir : Bool) (s : Found) (o : Option Text)
      → s.parent_frn < 2 ^ 48
      → o ≢ some []
      → IsFile n (file_record decode to_local n is_dir s o)
  unfolding file_record
  file_record-IsFile n is_dir s none hp hn = tt
  file_record-IsFile n is_dir s (some name) hp hn =
      elim (Bool-cases (text_eq name (codes ".") || text_eq name (codes ".."))) [
        | inl e ↦ rw (e, file_record) tt
        | inr e ↦
            rw (e, file_record)
              (
                refl,
                hp,
                (λ q. hn (ground (arith, q))),
                (λ q. ground (arith, e, text_eq_iff name (codes "."), q)),
                (λ q. ground (arith, e, text_eq_iff name (codes ".."), q)),
              )
      ]

  parse_fixed-Safe :
      (n : ℕ) (fixed : Bool × Bytes) → Safe (IsFile n) (parse_fixed decode to_local n fixed)
  unfolding parse_fixed
  parse_fixed-Safe n (false, d) = tt
  parse_fixed-Safe n (true, d) = bind-Safe _ _ (u16 d 0x16) (u16-Safe d 0x16) λ flags _.
      if-Safe _ _ _ (not (truthy (bit_and flags 1))) (λ _. tt)
        λ _. bind-Safe _ _ (u64 d 0x20) (u64-Safe d 0x20) λ base _.
          if-Safe _ _ _ (not (base == 0)) (λ _. tt)
            λ _. bind-Safe _ _ (u16 d 0x14) (u16-Safe d 0x14) λ first _.
              bind-Safe _ _ (read_attributes decode to_local (length d + 1) d first nothing_found)
                (read_attributes-Safe decode to_local (length d + 1) d first nothing_found
                  (omega arith) (omega arith) (omega arith, λ q. cc))
                λ s h. file_record-IsFile n (truthy (bit_and flags 2)) s s.name h.0 h.1

  parse_mft_record-IsFile :
      (d : Bytes) (record_number bytes_per_sector : ℕ)
      → Safe
          (IsFile record_number)
          (parse_mft_record decode to_local d record_number bytes_per_sector)
  unfolding parse_mft_record
  parse_mft_record-IsFile d n b =
      let (ok, d', e, _) = apply_usa_fixup-total d b in rw e (parse_fixed-Safe n (ok, d'))

-- How the parsing of the record of a given number ends: it raises, the record is no file's, or it
-- is that of a file.
abbrev pub Parsed : ℕ → Run (Option FileRecord) → Type 0
Parsed n run =
    (run ≡ raised)
    ⊎ ((run ≡ returned none) ⊎ ((r : FileRecord) × (run ≡ returned (some r)) × IsFile n (some r)))

Safe-Parsed : (n : ℕ) (run : Run (Option FileRecord)) → Safe (IsFile n) run → Parsed n run
Safe-Parsed n raised h = inl refl
Safe-Parsed n (returned none) h = inr (inl refl)
Safe-Parsed n (returned (some r)) h = inr (inr (r, refl, h))
Safe-Parsed n out_of_fuel h = absurd h

module _ (decode : Bytes → Option Text) (to_local : ℕ → Option ℕ) where
  -- Parsing a record of any bytes ends, in one of three ways: it raises an error, or gives nothing,
  -- or gives a file, with the number of the record, a parent of 48 bits, and a name that is neither
  -- empty nor `.` nor `..`.
  pub parse_mft_record-Safe :
      (d : Bytes) (record_number bytes_per_sector : ℕ)
      → Parsed record_number (parse_mft_record decode to_local d record_number bytes_per_sector)
  parse_mft_record-Safe d n b = Safe-Parsed n _ (parse_mft_record-IsFile decode to_local d n b)
