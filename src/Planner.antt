-- ===== src/Planner.antt =====
-- services/gateway/dadi_gateway/planner.py and services/regen-planner/dadi_regen/planner.py: which
-- runs a changed prompt or toolchain affects, and which stages of them to run again. The planners
-- build one SQL query each; its conditions and its parameters are gathered in two lists, and the
-- database binds the parameters to the placeholders by position.
pub mod Query
pub mod Items
pub mod Gateway
pub mod Regen
