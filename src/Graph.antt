-- ===== src/Graph.antt =====
-- graph: the GraphQL resolvers and what they are composed of.
pub mod Validation
pub mod Errors
pub mod Responses
pub mod Mutations
pub mod Converter
pub mod Queries
pub mod Audit
pub mod Adapter
pub mod Subscriptions
pub mod Health
