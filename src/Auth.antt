-- ===== src/Auth.antt =====
-- hub/src/lehen_hub/auth: who may call which endpoints.
pub mod Surfaces
pub mod Providers
pub mod Jwks
pub mod Jwt
pub mod Caching
pub mod Verifying
pub mod Serving
pub mod Entry
pub mod Disabling
