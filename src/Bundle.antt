-- ===== src/Bundle.antt =====
-- crates/gib-bundle/src: writing a bundle and reading one back.
pub mod Window
pub mod Writer
pub mod Reader
pub mod Header
pub mod Lines
pub mod RoundTrip
mod Examples
