-- ===== src/Models.antt =====
-- models.rs: the rows of the store, the requests, and the values of their text columns.
mod Values
mod Rows
mod Requests
unfoldable pub use Values.*
pub use Rows.*
pub use Requests.*
