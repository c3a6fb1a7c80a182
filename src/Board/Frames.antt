-- ===== src/Board/Frames.antt =====
-- Which calls and which global variables each part of the firmware uses, and the rules by which it is
-- shown to use no others.
pub mod Parts
pub mod Rules
pub use Parts.*
pub use Rules.*
