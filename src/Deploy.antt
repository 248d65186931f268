-- ===== src/Deploy.antt =====
-- The scripts of deploy: deploy/xui_outbound_client_recovery.py.
pub mod Outbound
