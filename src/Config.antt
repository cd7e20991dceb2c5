-- ===== src/Config.antt =====
-- hub/src/lehen_hub/config.py: the validators of the settings, and what main.py takes from settings
-- that were let through.
pub mod Settings
pub mod Startup
