-- ===== src/Api.antt =====
-- What the API's source files share: head/api.h and src/api.c (but its `InitializeAPI`, which is in
-- `Init`). The global variables are one record, `State`, that every function passes on.
mod Globals
mod Monad
mod Common
pub mod Laws
pub use Globals.*
unfoldable pub use Monad.*
unfoldable pub use Common.*
