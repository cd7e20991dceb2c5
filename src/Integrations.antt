-- ===== src/Integrations.antt =====
-- hub/src/lehen_hub/integrations/registry.py and hub/src/lehen_hub/admin/integrations_service.py.
pub mod Config
pub mod Adapter
pub mod AdapterFrame
pub mod Registry
pub mod Service
pub mod Stopping
