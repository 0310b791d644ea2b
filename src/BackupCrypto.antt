-- ===== src/BackupCrypto.antt =====
-- lib/backup-crypto.js: encryption of backups that leave the host, AES-256-GCM in chunks. A buffer is
-- a list of bytes; the primitives of Node's `crypto` are a parameter (`Primitives`), with what the
-- file relies on in `IsSound`. A stream is its `transform` and its `flush`, run on the pieces that
-- the stream before it hands over; what it pushes is a list of buffers.
mod Buffers
mod Crypto
mod Keys
mod Format
mod Streams
pub mod Written
pub mod Reads
pub mod Laws
unfoldable pub use Buffers.*
pub use Crypto.*
unfoldable pub use Keys.*
unfoldable pub use Format.*
unfoldable pub use Streams.*
