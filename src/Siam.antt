-- ===== src/Siam.antt =====
-- hub/src/lehen_hub/admin/siam_service.py: which realm roles may connect which instances.
pub mod Cascading
pub mod Mapping
pub mod Normal
pub mod Replace
