-- ===== src/Wire.antt =====
-- main/mqtt_parser.c: MQTT 3.1.1 packets as bytes, by parts.
pub mod Read
pub mod Length
pub mod Connect
pub mod Subscribe
pub mod Publish
pub mod Build
mod Tests
