-- ===== src/Tests.antt =====
-- Runs of the definitions on small inputs, and the theorems at concrete arguments.
mod Util
mod Httpp
mod Server
mod Htpasswd
mod Mp3
mod Listener
mod Requests
mod Queue
mod Auth
mod Fserve
mod Stats
mod Connection
mod Relay
mod Lifecycle
