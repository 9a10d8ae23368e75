-- ===== src/Wire.antt =====
-- internal/wire: the dialects in which the library talks to tmux. Argv, Writer, Quote and Counter
-- write arguments and command text; Words and Sequence read command text back; Stream, Records and
-- Octal read tmux's output.
pub mod Argv
pub mod Writer
pub mod Quote
pub mod Counter
pub mod Words
pub mod Sequence
pub mod Stream
pub mod Records
pub mod Octal
pub mod Format
mod Tests
