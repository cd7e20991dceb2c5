-- ===== src/LocalAdmin.antt =====
-- hub/src/lehen_hub/admin/local_admin_service.py: the bootstrap and break-glass login.
pub mod Window
pub mod Lockout
pub mod Login
pub mod Rotation
pub mod Service
