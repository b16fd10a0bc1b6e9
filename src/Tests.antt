-- ===== src/Tests.antt =====
-- Fixed inputs for the theorems, and each theorem applied to one.
mod Fixtures
mod TcpTable
mod TcpPackets
mod TcpHandler
mod Waiting
mod Receiving
mod Headers
mod Messages
mod HttpParsers
mod Ping
mod Chip
mod Driver
mod HttpServer
mod Runs
mod Example
