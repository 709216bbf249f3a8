-- ===== src/Net.antt =====
-- The network stack of "Computer Networks/pr11-网络传输机制实验三".
pub mod Types
pub mod Ring
pub mod Arp
pub mod Checksum
pub mod Ip
pub mod Tcp
pub mod Frames
