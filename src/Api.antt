-- ===== src/Api.antt =====
-- hub/src/lehen_hub/api: the endpoints of a user's connections and of the local login.
pub mod Connections
pub mod Answers
pub mod LocalLogin
pub mod Refusals
