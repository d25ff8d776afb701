-- ===== src/Format.antt =====
-- The package format/: printers of nested data to a writer.
pub mod Data
pub mod Writer
pub mod Keys
pub mod Text
pub mod Walk
pub mod Order
pub mod Buffer
pub mod Console
pub mod Markdown
pub mod Json
