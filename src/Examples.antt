-- ===== src/Examples.antt =====
-- The theorems of the components at concrete inputs.
mod Insertion
mod Nodes
mod Leader
mod Events
mod Start
mod Tables
mod Requests
mod Wiring
mod Together
mod Stops
mod Ending
mod Begun
