-- ===== src/Ws.antt =====
-- main/portal_ws.c: the WebSocket of the web tester, from the sockets to the task of a client.
pub mod Socket
pub mod Frame
pub mod Json
pub mod Task
pub mod Upgrade
mod Tests
