-- ===== src/Dealer/State/View.antt =====
-- A dealer's storage as what can be read of it, and what writes do to that.
pub mod Reads
pub mod Saves
pub mod Library
unfoldable pub use Reads.*
pub use Saves.*
pub use Library.*
