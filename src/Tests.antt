-- ===== src/Tests.antt =====
-- Runs of the models on concrete inputs, and each theorem at an input that meets its hypotheses.
mod Lobby
mod Service
mod Auth
mod Fleet
mod Sessions
mod Sockets
mod Tubes
mod Matches
