-- ===== src/Hub.antt =====
-- The Hub's documents and state, and what it takes from the machine that it runs on.
mod Documents
mod State
pub mod Values
pub mod Toy
pub mod ToyJson
pub use Documents.*
pub use State.*
