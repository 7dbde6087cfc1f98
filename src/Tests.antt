-- ===== src/Tests.antt =====
-- Concrete runs of the model, and the theorems at concrete inputs.
mod Hash
mod FrameRuns
mod ChunkingRuns
mod BrokerRuns
mod SubscriptionRuns
mod TicketRuns
mod DeltaRuns
mod ParallelRuns
mod BridgeRuns
mod EncryptionRuns
mod CacheRuns
mod FecRuns
mod TcpRuns
mod GhostRuns
mod RotationRuns
