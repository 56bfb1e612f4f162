-- ===== src/Pack.antt =====
-- crates/gib-pack/src: reading objects out of packfiles and their indexes.
pub mod Header
pub mod Delta
pub mod Index
pub mod Chain
pub mod Examples
use webgit.Base.{ℕ, Outcome}

-- lib.rs. What a file system reports is not modelled further than that it failed.
pub data PackError : Type 0 where
  file_system : PackError
  unsupported_index_version : PackError
  corrupt_index_file : PackError
  unsupported_pack_version : PackError
  corrupt_pack_file : PackError
  unexpected_thin_pack : PackError

-- `decompress` carries miniz's status, a number here.
pub data PackObjectError : Type 0 where
  pack : PackError → PackObjectError
  malformed_object : PackObjectError
  object_too_large : PackObjectError
  decompress : ℕ → PackObjectError
  malformed_delta : PackObjectError

abbrev pub ObjectResult {ℓ} : Type ℓ → Type ℓ
ObjectResult A = Outcome PackObjectError A

abbrev pub PackResult {ℓ} : Type ℓ → Type ℓ
PackResult A = Outcome PackError A
