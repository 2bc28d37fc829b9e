-- ===== src/Tests.antt =====
-- Concrete runs of the definitions, and the theorems at concrete inputs.
mod Fixtures
mod Capture
mod Control
mod Server
mod Links
mod Program
mod Masters
mod Upstream
mod Session
mod Fanout
mod Serve
mod ServeMulti
mod Tools
mod ProxyMulti
