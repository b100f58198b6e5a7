-- ===== src/Examples.antt =====
-- Runs of the development on concrete inputs.
mod Loads
mod Objectives
mod Bookings
mod Deliveries
mod Searches
mod Permissions
mod Plans
mod Reports
mod Lifecycles
mod Passes
mod Runs
mod Samples
