-- ===== src/Tests.antt =====
-- Runs of the model on concrete inputs, and the theorems applied to them.
mod Data
mod Compiling
mod Matching
mod Tcp
mod Status
mod Services
mod Ports
mod CryptoBytes
mod Sni
mod Listeners
mod Handle
mod Watching
mod Passes
mod Serving
mod Settings
mod Registering
mod Labels
mod Draining
