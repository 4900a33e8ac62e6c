-- ===== src/Tests.antt =====
-- Runs of the theorems on concrete inputs.
mod Channels
mod Store
mod Auth
mod Rings
mod Limits
mod Sinks
mod Envelopes
mod Issuing
mod Broker
mod Caching
mod Schemas
mod Tokens
mod Refreshing
mod Budgets
mod Keys
mod Creating
