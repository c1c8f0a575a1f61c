-- ===== src/Ntfs/Bytes.antt =====
-- Reading little-endian numbers and slices out of a buffer, as `struct.unpack_from` and slicing do.
use quick_find.Prelude.{
  ℕ, zero, suc, ◌+◌, ◌-◌, ◌*◌, ◌≤◌, ◌<◌, ◌≡◌, refl, none, some, List, [], ◌∷◌, arith, get_elem?,
  take, drop, length,
}

abbrev pub Bytes : Type 0
Bytes = List ℕ

-- A run of code that may raise `struct.error` or `IndexError`, or that is given too little fuel.
pub data Run {ℓ} (A : Type ℓ) : Type ℓ where
  returned : A → Run A
  raised : Run A
  out_of_fuel : Run A

infixl 5 ◌>>=◌
abbrev pub ◌>>=◌ {ℓ κ} : {A : Type ℓ} {B : Type κ} → Run A → (A → Run B) → Run B
returned a >>= k = k a
raised >>= k = raised
out_of_fuel >>= k = out_of_fuel

-- `data[i]`.
unfoldable pub byte : Bytes → ℕ → Run ℕ
byte d i = elim (get_elem? d i) [ none ↦ raised | some b ↦ returned b ]

-- `struct.unpack_from` with '<H', '<I' and '<Q'.
unfoldable pub u16 : Bytes → ℕ → Run ℕ
u16 d i = do a ← byte d i; b ← byte d (i + 1); returned (a + 256 * b)

unfoldable pub u32 : Bytes → ℕ → Run ℕ
u32 d i = do a ← u16 d i; b ← u16 d (i + 2); returned (a + 65536 * b)

unfoldable pub u64 : Bytes → ℕ → Run ℕ
u64 d i = do a ← u32 d i; b ← u32 d (i + 4); returned (a + 4294967296 * b)

-- `data[i:j]`.
unfoldable pub slice : Bytes → ℕ → ℕ → Bytes
slice d i j = take (j - i) (drop i d)

-- A value that is there is read.
abbrev pub Returns : {A : Type 0} → Run A → Type 0
Returns {A} r = (a : A) × (r ≡ returned a)

get_elem?-some : (d : Bytes) (i : ℕ) → i < length d → (b : ℕ) × (get_elem? d i ≡ some b)
get_elem?-some [] i h = absurd (omega arith)
get_elem?-some (b ∷ d) zero h = (b, refl)
get_elem?-some (b ∷ d) (suc i) h = get_elem?-some d i (omega arith)

pub byte-Returns : (d : Bytes) (i : ℕ) → i + 1 ≤ length d → Returns (byte d i)
unfolding byte
byte-Returns d i h = let (b, e) = get_elem?-some d i (omega arith) in (b, rw (e, byte))

pub u16-Returns : (d : Bytes) (i : ℕ) → i + 2 ≤ length d → Returns (u16 d i)
unfolding u16
u16-Returns d i h =
    let (a, ea) = byte-Returns d i (omega arith) in
    let (b, eb) = byte-Returns d (i + 1) (omega arith) in (a + 256 * b, simp (ea, eb))

pub u32-Returns : (d : Bytes) (i : ℕ) → i + 4 ≤ length d → Returns (u32 d i)
unfolding u32
u32-Returns d i h =
    let (a, ea) = u16-Returns d i (omega arith) in
    let (b, eb) = u16-Returns d (i + 2) (omega arith) in (a + 65536 * b, simp (ea, eb))

pub u64-Returns : (d : Bytes) (i : ℕ) → i + 8 ≤ length d → Returns (u64 d i)
unfolding u64
u64-Returns d i h =
    let (a, ea) = u32-Returns d i (omega arith) in
    let (b, eb) = u32-Returns d (i + 4) (omega arith) in (a + 4294967296 * b, simp (ea, eb))
