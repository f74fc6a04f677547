-- ===== src/Base.antt =====
-- What the modules share: the libraries' names, tests on numbers, lists, integers, C strings and
-- numbers as text.
mod Tests
mod Lists
mod Int
mod Text
mod Digits
unfoldable pub use Tests.*
unfoldable pub use Lists.*
unfoldable pub use Int.*
unfoldable pub use Text.*
unfoldable pub use Digits.*
