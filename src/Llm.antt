-- ===== src/Llm.antt =====
-- hub/src/lehen_hub/llm/providers.py and hub/src/lehen_hub/admin/llm_service.py: the configuration
-- of the language models, one row with an inference side and an embedding side.
pub mod Providers
pub mod Service
pub mod Fields
mod Stored
mod Frame
mod Rows
mod Hidden
pub mod Audited
pub mod Sides
pub mod Updating
