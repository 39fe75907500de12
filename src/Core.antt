-- ===== src/Core.antt =====
-- crates/asli-core: the rules that keep a clip from looping or being replayed.
pub mod Echo
pub mod Replay
pub mod Normalize
