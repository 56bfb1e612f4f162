-- ===== src/Pack/Delta/Encode.antt =====
-- The delta format, as git writes it: the instructions, what they rebuild, and their bytes.
use webgit.Base.{ℕ, zero, suc, ◌+◌, ◌*◌, ◌/◌, ◌%◌, ◌^◌, ◌≤◌, ◌<◌, Bytes, List, [], ◌∷◌, ◌++◌}
use webgit.Base.{length, take, drop, ltb, ◌==◌, if◌then◌else◌}

pub data Instruction : Type 0 where
  copy : ℕ → ℕ → Instruction
  insert : Bytes → Instruction

-- What an instruction may say: a run within the base whose offset and size have four and three
-- bytes, or one to 127 literal bytes.
abbrev pub IsInstruction : Bytes → Instruction → Type 0
IsInstruction base (copy offset size) =
    (0 < size) × (size < 2 ^ 24) × (offset < 2 ^ 32) × (offset + size ≤ length base)
IsInstruction base (insert literal) = (0 < length literal) × (length literal < 128)

unfoldable pub appended : Bytes → Instruction → Bytes
appended base (copy offset size) = take size (drop offset base)
appended base (insert literal) = literal

unfoldable pub rebuilt : Bytes → List Instruction → Bytes
rebuilt base [] = []
rebuilt base (i ∷ is) = appended base i ++ rebuilt base is

-- The lowest `n` bytes of a number.
unfoldable pub le_bytes : ℕ → ℕ → Bytes
le_bytes zero x = []
le_bytes (suc n) x = x % 256 ∷ le_bytes n (x / 256)

-- A bit for each byte that is not zero, lowest first, under `high`; and those bytes.
unfoldable pub flag : ℕ → ℕ
flag b = if b == 0 then 0 else 1

unfoldable pub flags : Bytes → ℕ → ℕ
flags [] high = high
flags (b ∷ bs) high = flag b + 2 * flags bs high

unfoldable pub present : Bytes → Bytes
present [] = []
present (b ∷ bs) = if b == 0 then present bs else b ∷ present bs

-- A size of 0x10000 is written as no size at all.
unfoldable pub size_bytes : ℕ → Bytes
size_bytes size = le_bytes 3 (if size == 0x10000 then 0 else size)

unfoldable pub instruction_bytes : Instruction → Bytes
instruction_bytes (copy offset size) =
    flags (le_bytes 4 offset) (flags (size_bytes size) 1)
    ∷ (present (le_bytes 4 offset) ++ present (size_bytes size))
instruction_bytes (insert literal) = length literal ∷ literal

unfoldable pub instructions_bytes : List Instruction → Bytes
instructions_bytes [] = []
instructions_bytes (i ∷ is) = instruction_bytes i ++ instructions_bytes is

-- A size in groups of seven bits, lowest first, with the top bit on all but the last; `k` bounds the
-- number of groups behind the first.
unfoldable pub varint : ℕ → ℕ → Bytes
varint zero n = n ∷ []
varint (suc k) n =
    let more = varint k (n / 128) in if ltb n 128 then n ∷ [] else (n % 128 + 128) ∷ more

unfoldable pub delta_bytes : Bytes → List Instruction → Bytes
delta_bytes base is =
    varint 8 (length base) ++ (varint 8 (length (rebuilt base is)) ++ instructions_bytes is)
