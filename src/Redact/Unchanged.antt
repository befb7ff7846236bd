-- ===== src/Redact/Unchanged.antt =====
-- A pass that counts no redacted field returns its input. Each round of a loop that finds nothing
-- copies what it moves past, and every round moves on.
pub mod Vocabulary
pub mod Opaque
pub mod Urls
pub mod Connections
pub mod Whole
