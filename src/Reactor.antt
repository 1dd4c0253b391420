-- ===== src/Reactor.antt =====
-- src/amqp/reactor: what a reactor decides by itself about the events that the server asks it about.
pub mod Registry
pub mod Router
pub mod Protocol
pub mod Runtime
mod Examples
