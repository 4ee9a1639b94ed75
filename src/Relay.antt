-- ===== src/Relay.antt =====
-- relay/: the sessions of the relay and what they subscribe to.
pub mod Subscriber
pub mod Message
pub mod Session
pub mod Server
pub mod Writer
pub mod Reader
