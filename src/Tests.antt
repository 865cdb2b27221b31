-- ===== src/Tests.antt =====
-- Witnesses and tests: concrete cards, requests and databases, and a Redis that meets its interface.
mod Redis
mod Codes
mod Caches
mod Cards
mod Requests
mod Money
mod Beats
mod People
mod Terms
mod Codecs
mod Web
mod Signed
mod Renewals
