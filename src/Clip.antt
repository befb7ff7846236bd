-- ===== src/Clip.antt =====
-- The clip codec, src/PcPulse.Tui/src/pulseclip.rs: `Color` the colour cube, `Bytes` the
-- little-endian numbers, `Writer` and `Reader` the container.
pub mod Color
pub mod Bytes
pub mod Writer
pub mod Reader
