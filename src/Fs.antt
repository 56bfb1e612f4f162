-- ===== src/Fs.antt =====
-- crates/gib-fs/src: files, and the caches in front of them.
pub mod Lru
pub mod Pages
use webgit.Base.{ℕ, ◌-◌, ◌⊎◌, inl, inr, Bytes, length, ◌++◌, replicate, Outcome, ok, err, Returns}

-- What the boxed causes of a failure hold is left out.
pub data FileSystemError : Type 0 where
  not_found : FileSystemError
  other : FileSystemError

-- The trait `File` as its readers see it: what `read_segment` at an offset, into a buffer of a
-- length, reads, or how it fails.
pub record File : Type 0 where
  pub read_segment : ℕ → ℕ → FileSystemError ⊎ Bytes

-- `[0u8; len]` with what was read in front.
unfoldable pub filled : ℕ → Bytes → Bytes
filled len read = read ++ replicate (len - length read) 0

-- The trait `Directory`, as far as readers of files use it.
pub record Directory : Type 0 where
  pub open_file : Bytes → Outcome FileSystemError File

-- The `?` on a read, with the error that the caller makes of a failure.
abbrev pub or_err {ℓ} : {E : Type ℓ} → FileSystemError ⊎ Bytes → E → Outcome E Bytes
or_err (inl failure) e = err e
or_err (inr read) e = ok read

pub Returns-or_err {ℓ} : {E : Type ℓ} (r : FileSystemError ⊎ Bytes) (e : E) → Returns (or_err r e)
Returns-or_err (inl failure) e = tt
Returns-or_err (inr read) e = tt
