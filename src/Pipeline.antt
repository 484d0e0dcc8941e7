-- ===== src/Pipeline.antt =====
-- The way of a request through the services, over the tables that they share: the dispatcher of
-- backend/ts-core/src/producer.service.ts, the prover of
-- backend/ts-prover/src/infrastructure/prover.processor.ts and the operator of
-- backend/ts-operator/src/infrastructure/operator.processor.ts, and the events of the contract,
-- operator.producer.ts beside it.
pub mod Queries
pub mod Producer
pub mod Prover
pub mod Operator
pub mod Events
