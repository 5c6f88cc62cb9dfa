-- ===== src/HeartBeat.antt =====
-- teleHeartBeat/HeartBeat.h and HeartBeat.cpp: two hosts that watch one another.
-- What the socket calls, popen and fgets return is part of the input of a function. Shell commands
-- and sleeps are its output. Logging and the message texts are left out.
pub mod Trim
pub mod Socket
pub mod Server
pub mod Client
pub mod Takeover
pub mod Lapse
pub mod Main
