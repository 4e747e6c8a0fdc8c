-- ===== src/Tests.antt =====
-- Runs of the models: an operating system that answers every call, and the statements of the other
-- modules at concrete worlds.
mod Endpoints
mod Devices
mod IpcStreamServer
mod Log
mod Netlink
mod Machine
mod TcpServer
mod Refinement
mod Nptp
mod Race
mod Apart
mod TcpClient
mod IpcStreamClient
