-- ===== src/Tests.antt =====
-- Runs at concrete inputs, against a client that keeps its AVUs in a list.
mod Memory
mod Metadata
mod Objects
mod Registry
mod Strip
mod Summary
mod Listing
mod Compound
mod Access
mod Creation
mod Update
mod Validator
mod Http
mod Sampler
