-- ===== src/Object.antt =====
-- crates/gib-object/src: the kinds of object that a repository stores, and their names.
pub mod Trees
use webgit.Base.{ℕ, zero, suc, ◌+◌, ◌/◌, ◌%◌, Bytes, [], ◌∷◌, ◌++◌, length, ltb, if◌then◌else◌}
use webgit.Hash.{ObjectId}

pub data ObjectType : Type 0 where
  commit tag blob tree : ObjectType

pub record RawObject : Type 0 where
  pub object_type : ObjectType
  pub body : Bytes

unfoldable pub type_name : ObjectType → Bytes
type_name commit = b'c' ∷ b'o' ∷ b'm' ∷ b'm' ∷ b'i' ∷ b't' ∷ []
type_name tag = b't' ∷ b'a' ∷ b'g' ∷ []
type_name blob = b'b' ∷ b'l' ∷ b'o' ∷ b'b' ∷ []
type_name tree = b't' ∷ b'r' ∷ b'e' ∷ b'e' ∷ []

-- `to_string` of the standard library, on at least as much fuel as the number has digits.
unfoldable pub digits : ℕ → ℕ → Bytes → Bytes
digits zero n behind = behind
digits (suc fuel) n behind =
    if ltb n 10 then (b'0' + n) ∷ behind else digits fuel (n / 10) ((b'0' + n % 10) ∷ behind)

-- `sha1` is a crate's.
unfoldable pub compute_id : (Bytes → Bytes) → RawObject → ObjectId
compute_id sha1 object = record {
  bytes = sha1 (
      type_name object.object_type
      ++ b' ' ∷ digits (suc (length object.body)) (length object.body) (0 ∷ object.body));
}
