-- ===== src/Oauth.antt =====
-- hub/src/lehen_hub/auth/oauth.py: the state token, the authorization URL, and the calls of a
-- provider's token endpoint.
pub mod State
pub mod Tokens
pub mod Frame
pub mod Storage
pub mod Expiry
