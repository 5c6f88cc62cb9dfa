-- ===== src/Tests.antt =====
-- The theorems applied to concrete inputs.
mod Sockets
mod Sorts
mod Heaps
mod Pages
mod Programs
mod Reports
mod Segments
mod Strings
mod Tables
mod Threads
mod Ciphers
mod Logs
mod Chats
mod Events
mod Chains
mod Hosts
mod Trees
mod Files
