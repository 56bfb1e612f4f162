-- ===== src/Attributes.antt =====
-- crates/gib-attributes/src: the patterns of `.gitattributes`.
pub mod Bracket
pub mod Wildmatch
pub mod Examples
