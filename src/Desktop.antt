-- ===== src/Desktop.antt =====
-- apps/desktop/src-tauri: the program that asks for work and pays for it.
pub mod Routing
pub mod Pot
