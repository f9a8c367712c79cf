-- ===== src/Tests.antt =====
-- Runs of the modelled code at concrete inputs, and the theorems at such inputs.
mod Data
mod Api
mod Answers
mod Calls
mod Maps
mod Ga
mod Seats
mod Money
mod Room
mod Seeds
mod House
mod History
