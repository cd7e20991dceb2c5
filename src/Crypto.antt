-- ===== src/Crypto.antt =====
-- hub/src/lehen_hub/crypto: the envelope of a stored secret.
pub mod Envelope
pub mod Frame
pub mod Keys
