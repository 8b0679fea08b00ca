-- ===== src/Png.antt =====
-- src/runner_paddock/runner_paddock/png_codec.py: the grayscale PNG codec, and semantics.py: the class
-- rasters that are stored with it.
pub mod Bytes
pub mod Unfilter
pub mod Codec
pub mod Slices
pub mod Rows
pub mod Chunks
pub mod Roundtrip
pub mod Filters
pub mod Semantics
pub mod Rasters
pub mod Ends
mod Tests
