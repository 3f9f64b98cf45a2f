-- ===== src/Tests.antt =====
-- Runs of the model on concrete inputs, and the theorems at inputs that meet their hypotheses.
mod Logs
mod Captures
mod App
mod Codec
mod Frames
mod Engine
mod Network
mod Tasks
mod Sockets
mod Api
