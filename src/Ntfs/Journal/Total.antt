-- ===== src/Ntfs/Journal/Total.antt =====
-- The loop over the records never reads outside its buffer, and always ends.
use quick_find.Prelude.{
  ℕ, zero, suc, ◌+◌, ◌^◌, ◌≤◌, ◌<◌, ◌≡◌, ◌≢◌, inl, inr, refl, Bool, not, ◌||◌, Option, List, [],
  ◌∷◌, arith, ltb, ◌==◌, if◌then◌else◌, length, All, subst, sym, ◌↔◌, none, some, leb, ==_iff,
  Bool-cases, true, false,
}
use quick_find.Text.{Text}
use quick_find.Ntfs.Bytes.{
  Bytes, Run, returned, ◌>>=◌, u16, u32, u64, Returns, u16-Returns, u32-Returns, u64-Returns,
}
use quick_find.Index.Usn.{UsnRecord}
use quick_find.Ntfs.Journal.{
  Raw, frn_index, read_v2, read_v3, record_name, add_record, read_records, Volume, Reply, failed,
  buffer, read_reply, read_usn_journal,
}

-- A record is read, with 48-bit file numbers.
abbrev Reads : Run Raw → Type 0
Reads r = (raw : Raw) × (r ≡ returned raw) × (raw.raw_frn < 2 ^ 48) × (raw.raw_parent < 2 ^ 48)

read_v2-Reads : (d : Bytes) (o : ℕ) → o + 64 ≤ length d → Reads (read_v2 d o)
unfolding read_v2
read_v2-Reads d o h =
    let (a, ea) = u64-Returns d (o + 8) (omega arith) in
    let (b, eb) = u64-Returns d (o + 16) (omega arith) in
    let (c, ec) = u64-Returns d (o + 24) (omega arith) in
    let (t, et) = u64-Returns d (o + 32) (omega arith) in
    let (r, er) = u32-Returns d (o + 40) (omega arith) in
    let (at, eat) = u32-Returns d (o + 52) (omega arith) in
    let (l, el) = u16-Returns d (o + 56) (omega arith) in
    let (n, en) = u16-Returns d (o + 58) (omega arith) in
    (
      record {
        raw_frn = frn_index a;
        raw_parent = frn_index b;
        raw_usn = c;
        raw_timestamp = t;
        raw_reason = r;
        raw_attributes = at;
        name_len = l;
        name_offset = n;
      },
      simp (ea, eb, ec, et, er, eat, el, en),
      omega arith,
      omega arith,
    )

read_v3-Reads : (d : Bytes) (o : ℕ) → o + 76 ≤ length d → Reads (read_v3 d o)
unfolding read_v3
read_v3-Reads d o h =
    let (a, ea) = u64-Returns d (o + 8) (omega arith) in
    let (b, eb) = u64-Returns d (o + 24) (omega arith) in
    let (c, ec) = u64-Returns d (o + 40) (omega arith) in
    let (t, et) = u64-Returns d (o + 48) (omega arith) in
    let (r, er) = u32-Returns d (o + 56) (omega arith) in
    let (at, eat) = u32-Returns d (o + 64) (omega arith) in
    let (l, el) = u16-Returns d (o + 68) (omega arith) in
    let (n, en) = u16-Returns d (o + 70) (omega arith) in
    (
      record {
        raw_frn = frn_index a;
        raw_parent = frn_index b;
        raw_usn = c;
        raw_timestamp = t;
        raw_reason = r;
        raw_attributes = at;
        name_len = l;
        name_offset = n;
      },
      simp (ea, eb, ec, et, er, eat, el, en),
      omega arith,
      omega arith,
    )

abbrev pub IsRecord : UsnRecord → Type 0
IsRecord r = (r.frn < 2 ^ 48) × (r.parent_frn < 2 ^ 48) × (r.name ≢ [])

module _ (decode : Bytes → Option Text) (to_local : ℕ → Option ℕ) where
  add_record-All :
      (raw : Raw) (name : Text) (records : List UsnRecord)
      → raw.raw_frn < 2 ^ 48
      → raw.raw_parent < 2 ^ 48
      → All IsRecord records
      → All IsRecord (add_record decode to_local raw name records)
  unfolding add_record
  add_record-All raw [] records hf hp h = h
  add_record-All raw (c ∷ cs) records hf hp h = ((hf, hp, λ e. cc), h)

  abbrev pub GivesRecords : Run (List UsnRecord) → Type 0
  GivesRecords r = (records : List UsnRecord) × (r ≡ returned records) × All IsRecord records

  -- Reading goes on behind the record, where it gives records.
  one-Gives :
      (d : Bytes) (o : ℕ) (r : Run Raw) (rest : Run (List UsnRecord))
      → Reads r
      → GivesRecords rest
      → GivesRecords (
          r >>= λ raw. rest >>= λ records.
          returned (add_record decode to_local raw (record_name decode to_local d o raw) records))
  one-Gives d o r rest (raw, e, hf, hp) (records, e', h) = (
    add_record decode to_local raw (record_name decode to_local d o raw) records,
    simp (e, e'),
    add_record-All raw (record_name decode to_local d o raw) records hf hp h,
  )

  nothing : GivesRecords (returned [])
  nothing = ([], refl, tt)

  if-Gives :
      (b : Bool) (x y : Run (List UsnRecord))
      → (b ≡ true → GivesRecords x)
      → (b ≡ false → GivesRecords y)
      → GivesRecords (if b then x else y)
  if-Gives true x y hx hy = hx refl
  if-Gives false x y hx hy = hy refl

  bind-Gives :
      (r : Run ℕ) (k : ℕ → Run (List UsnRecord))
      → Returns r
      → ((n : ℕ) → GivesRecords (k n))
      → GivesRecords (r >>= k)
  bind-Gives r k (n, e) h = subst (λ t. GivesRecords (t >>= k)) (sym e) (h n)

  -- A buffer of any content is read to its end: the loop ends, within as many rounds as there are
  -- bytes from its offset on and one more, no read lies outside the buffer, and each record that is
  -- found has a name and file numbers of 48 bits.
  pub read_records-total :
      (f : ℕ) (d : Bytes) (offset : ℕ)
      → offset ≤ length d
      → length d < offset + f
      → GivesRecords (read_records decode to_local f d offset)
  unfolding read_records
  read_records-total zero d o in_buffer h = absurd (omega arith)
  read_records-total (suc f) d o in_buffer h =
      if-Gives (not (ltb o (length d)) || ltb (length d) (o + 4)) (returned []) _ (λ _. nothing)
        λ more. bind-Gives (u32 d o) _ (u32-Returns d o (ground arith)) λ n.
          if-Gives (n == 0 || ltb (length d) (o + n) || ltb (length d) (o + 6)) (returned []) _
            (λ _. nothing)
            λ fits. bind-Gives (u16 d (o + 4)) _ (u16-Returns d (o + 4) (ground arith)) λ v.
              let rest : GivesRecords (read_records decode to_local f d (o + n)) =
                read_records-total f d (o + n) (ground arith) (ground arith) in
              if-Gives (v == 3 || v == 4) _ _
                (λ _.
                  if-Gives (ltb (length d) (o + 76)) (returned []) _ (λ _. nothing)
                    λ long.
                      one-Gives d o (read_v3 d o) (read_records decode to_local f d (o + n))
                        (read_v3-Reads d o (ground arith)) rest)
                (λ _.
                  if-Gives (ltb (length d) (o + 64)) (returned []) _ (λ _. nothing)
                    λ long.
                      one-Gives d o (read_v2 d o) (read_records decode to_local f d (o + n))
                        (read_v2-Reads d o (ground arith)) rest)

-- Where the next read would start if this one fails.
abbrev pub start_of : Volume → Option ℕ → ℕ
start_of v none = v.next_usn
start_of v (some usn) = usn

-- The new position, by whether the buffer has no more than a position.
abbrev pub Moved : Bool → ℕ → Bytes → Volume × List UsnRecord → Type 0
Moved true start d (v', records) = (records ≡ []) × (v'.next_usn ≡ start)
Moved false start d (v', records) = All IsRecord records × (u64 d 0 ≡ returned v'.next_usn)

ltb-true : (m n : ℕ) → m < n → ltb m n ≡ true
ltb-true m n h = ground (arith, h)

-- What the caller of `read_usn_journal` may rely on, for each reply of the driver.
abbrev pub Outcome : ℕ → Reply → Volume × List UsnRecord → Type 0
Outcome start (failed err) (v', records) =
    (records ≡ []) × (v'.next_usn ≡ start) × ((v'.journal_wrapped ≡ true) ↔ (err ≡ 1181))
Outcome start (buffer d) (v', records) =
    (v'.journal_wrapped ≡ false) × Moved (leb (length d) 8) start d (v', records)

module _ (decode : Bytes → Option Text) (to_local : ℕ → Option ℕ) (ioctl : ℕ → ℕ → Reply) where
  read_reply-total :
      (v : Volume) (reply : Reply)
      → v.journal_wrapped ≡ false
      → (r : Volume × List UsnRecord) × (read_reply decode to_local ioctl v reply ≡ returned r)
        × (r.0.journal_id ≡ v.journal_id)
        × Outcome v.next_usn reply r
  unfolding read_reply
  read_reply-total v (failed err) w = elim (Bool-cases (err == 1181)) [
    | inl wrapped ↦ (
      (record v { journal_wrapped = true }, []),
      rw wrapped,
      refl,
      (refl, refl, (λ _. (==_iff err 1181).0 wrapped, λ _. refl)),
    )
    | inr other ↦ (
      (v, []),
      rw other,
      refl,
      (refl, refl, (λ t. cc (t, w), λ e. cc (other, (==_iff err 1181).1 e))),
    )
  ]
  read_reply-total v (buffer d) w = elim (Bool-cases (leb (length d) 8)) [
    | inl short ↦ ((v, []), rw short, refl, (w, rw short (refl, refl)))
    | inr long ↦
        let (next, e) = u64-Returns d 0 (ground arith) in
        let (records, e', all) =
          read_records-total decode to_local (length d) d 8 (ground arith) (omega arith) in
        (
          (record v { next_usn = next }, records),
          rw long (simp (e, e')),
          refl,
          (w, rw long (all, e)),
        )
  ]

  -- From a position and with a journal's id of 64 bits, reading the journal never raises and never
  -- hangs, whatever the driver replies, and keeps the id. A failed call gives no records and keeps
  -- the position it was to start from, and says that the journal has wrapped exactly for the error
  -- that means it. So does a buffer of eight bytes at most, without the journal having wrapped; a
  -- longer one gives records with names and file numbers of 48 bits, and moves the position to the
  -- one in its first eight bytes.
  pub read_usn_journal-total :
      (v : Volume) (start_usn : Option ℕ)
      → start_of v start_usn < 2 ^ 64
      → v.journal_id < 2 ^ 64
      → (r : Volume × List UsnRecord) × (read_usn_journal decode to_local ioctl v start_usn
          ≡ returned r)
        × (r.0.journal_id ≡ v.journal_id)
        × Outcome (start_of v start_usn) (ioctl (start_of v start_usn) v.journal_id) r
  unfolding read_usn_journal
  read_usn_journal-total v none small id_small =
      rw (ltb-true v.next_usn (2 ^ 64) small, ltb-true v.journal_id (2 ^ 64) id_small)
        (read_reply-total (record v { journal_wrapped = false }) (ioctl v.next_usn v.journal_id)
          refl)
  read_usn_journal-total v (some usn) small id_small =
      rw (ltb-true usn (2 ^ 64) small, ltb-true v.journal_id (2 ^ 64) id_small)
        (read_reply-total (record v { journal_wrapped = false; next_usn = usn })
          (ioctl usn v.journal_id) refl)
