-- ===== src/Witnesses.antt =====
-- Tests of the translated code, and the theorems at concrete inputs.
mod Paths
mod Limits
mod Sessions
mod Managers
mod Receivers
mod Routes
mod Uploads
mod Cryptos
mod Rtcs
mod Senders
mod Networks
mod Https
