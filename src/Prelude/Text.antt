-- ===== src/Prelude/Text.antt =====
-- C strings as lists of bytes without the closing 0, and what the program uses of string.h,
-- stdio.h and stdlib.h on them.
mod Search
mod Numbers
mod Decimal
unfoldable pub use Search.*
unfoldable pub use Numbers.*
unfoldable pub use Decimal.*
