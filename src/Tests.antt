-- ===== src/Tests.antt =====
-- Runs of the definitions at concrete inputs, and the theorems at inputs that meet their hypotheses.
mod Lines
mod Limits
mod Telnet
mod Session
mod Triggers
mod Retention
mod Rules
mod Server
mod Client
mod Pty
mod Recording
mod Mcp
mod Ports
