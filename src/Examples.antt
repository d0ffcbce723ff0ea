-- ===== src/Examples.antt =====
-- Each theorem applied at concrete inputs, with functions in the place of the cryptographic library.
mod Toy
mod Sessions
mod Signed
mod Servers
mod Documents
mod Relay
mod Requests
mod Invitations
mod Arrival
mod Descriptors
mod Admissions
