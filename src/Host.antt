-- ===== src/Host.antt =====
-- The executor that the operations run on: its calls, the state they act on, the monad they are
-- written in, and rules to reason about them.
pub mod Json
mod Calls
mod ReleaseRecord
mod Exec
pub mod Rules
pub mod Waiting
pub use Calls.*
pub use ReleaseRecord.*
unfoldable pub use Exec.*
