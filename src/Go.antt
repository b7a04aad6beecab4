-- ===== src/Go.antt =====
-- What the program uses of Go's language and standard library.
pub mod Map
pub mod Unordered
pub mod SortedKeys
pub mod Text
pub mod Sort
pub mod Decimal
pub mod Platform
pub mod Duration
pub mod Time
