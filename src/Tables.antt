-- ===== src/Tables.antt =====
-- The rows of the database: catalog/models.py, inventory/models.py and checkout/models.py with the
-- tables of alembic/versions, and the database as the list of the rows of each table.
mod Catalog
mod Inventory
mod Checkout
mod Database
mod Constraints
pub use Catalog.*
pub use Inventory.*
pub use Checkout.*
pub use Database.*
pub use Constraints.*
