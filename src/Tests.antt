-- ===== src/Tests.antt =====
-- Concrete runs of the modelled code.
mod SerdeRuns
mod ConnectionRuns
mod WorldRuns
mod EntityRuns
mod ServerRuns
mod KeyRuns
mod PingRuns
