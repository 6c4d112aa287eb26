-- ===== src/Db.antt =====
-- The database session: the rows of src/billing_platform/domain/models, and the calls that the services
-- make of SQLAlchemy's `AsyncSession`.
pub mod Json
pub mod CatalogRows
pub mod Rows
pub mod Session
pub mod Keeps
