-- ===== src/Examples.antt =====
-- Inputs at which the theorems hold: a table of three at the start of a hand, the end of a betting
-- round heads-up, a table with an all-in and a fold, and a showdown of two hands.
mod Tables
mod Toy
mod Cases
mod Replicas
mod Drivers
mod Clients
