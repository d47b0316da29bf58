-- ===== src/Broadcast.antt =====
-- Broadcasting of transactions: src/messaging/consumers/BroadcastConsumer.ts and
-- src/broadcast/BroadcastOrchestrator.ts. Loading, posting, recording, the dead letters and the
-- settlement of a message are calls of other parts, given as parameters.
pub mod Texts
pub mod Classify
pub mod Request
pub mod Message
pub mod Effects
pub mod Consume
pub mod Tests
