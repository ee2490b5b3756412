-- ===== src/Webproxy.antt =====
-- Package webproxy (internal/webproxy): one child for each of its files that is modelled.
pub mod Errors
pub mod Frame
pub mod Websocket
pub mod Carrier
pub mod Http
pub mod Https
pub mod Steps
pub mod Upgrade
pub mod Dial
