-- ===== src/Storage.antt =====
-- hub/src/lehen_hub/storage/bootstrap.py: what the Hub does to the database when it starts.
pub mod Bootstrap
pub mod Started
