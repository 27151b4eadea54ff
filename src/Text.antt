-- ===== src/Text.antt =====
-- Go strings as lists of bytes, with the functions of package strings that the sources call, on
-- ASCII text. (Unicode spaces and letters beyond ASCII are left out.)
pub mod Decimal
pub mod Fixed
pub mod Laws
pub use Laws.*
pub mod Bytes
