-- ===== src/Pipeline.antt =====
-- internal/notification/pipeline and internal/notification/sender: the delivery worker and the
-- Kafka consumer of the notifier.
pub mod Senders
pub mod Delivery
pub mod Consumer
