-- ===== src/World.antt =====
-- What the services of backend/app/services and backend/workers share and change, and the actions
-- on it.
mod State
mod Actions
pub mod Keeps
pub mod Yields
pub use State.*
pub use Actions.*
