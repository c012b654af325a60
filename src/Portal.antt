-- ===== src/Portal.antt =====
-- main/portal.c and main/portal_berry.c: how the portal reads requests and writes texts.
pub mod Base64
pub mod Http
pub mod Form
mod Tests
