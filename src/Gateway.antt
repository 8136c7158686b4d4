-- ===== src/Gateway.antt =====
-- The attempts of `gatewayChat`, cmd/server/main.go.
pub mod Types
pub mod Vision
pub mod Attempt
pub mod Loop
pub mod Steps
pub mod Promises
pub mod Forwards
pub mod Answers
pub mod Sessions
pub mod Engine
pub mod Admission
pub mod Chat
pub mod Admitted
pub mod Requests
pub mod Attempted
mod Tests
