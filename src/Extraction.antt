-- ===== src/Extraction.antt =====
-- Extraction of source text: server/app/services/extraction.py.
pub mod Pages
pub mod Limits
pub mod Sections
pub mod Texts
pub mod Pieces
pub mod Formats
pub mod Documents
pub mod Sound
pub mod Pdf
pub mod Packing
pub mod Tests
pub mod Chunking
