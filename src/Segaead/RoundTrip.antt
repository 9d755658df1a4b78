-- ===== src/Segaead/RoundTrip.antt =====
-- A blob that the writer frames is opened again: each side yields the right bytes, whatever the
-- sizes of the buffers that its caller reads with.
pub mod Reads
pub mod Writes
pub mod Opens
pub mod Whole
pub mod Authentic
