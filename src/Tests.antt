-- ===== src/Tests.antt =====
-- Runs at concrete inputs.
mod Coding
mod Setting
mod Messages
mod Parts
mod Groups
mod Lone
mod Elections
mod Ganglia
mod Tcp
mod Epgm
mod Uses
mod Programs
mod Exchanges
