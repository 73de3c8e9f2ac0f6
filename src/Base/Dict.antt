-- ===== src/Base/Dict.antt =====
-- Python's `dict`: pairs in insertion order. A write to a known key keeps its place.
mod Unique
pub use Unique.*
mod Defs
unfoldable pub use Defs.*
