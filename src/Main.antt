-- ===== src/Main.antt =====
-- main.go: what main does before it serves, and the connections that it serves.
pub mod Startup
pub mod Accept
pub mod Ready
pub mod Serving
pub mod Admitted
pub mod Methods
pub mod Table
