-- ===== src/Tests.antt =====
-- The theorems at concrete inputs, by the part of the program that they are about.
mod Data
mod Api
mod Format
mod Components
mod Pages
mod Server
mod Ws
mod Runs
mod Protocol
mod Tunnel
mod Client
