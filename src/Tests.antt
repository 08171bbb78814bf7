-- ===== src/Tests.antt =====
-- The hypotheses of the theorems hold: each of them at a concrete input.
pub mod Instances
mod RingInputs
mod BlockInputs
mod StructInputs
mod PacketInputs
mod EnvelopeInputs
mod EscapeInputs
mod ScanInputs
mod TokenInputs
mod SecureInputs
mod CensorInputs
mod SearchInputs
mod PostgresInputs
mod RegistryInputs
