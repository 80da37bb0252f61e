-- ===== src/Fakes.antt =====
-- backend/internal/testutil: the stores in memory that the tests of the repository put in the place of
-- the database.
pub mod WebhookStore
pub mod Calls
pub mod Agreement
pub mod Refinement
