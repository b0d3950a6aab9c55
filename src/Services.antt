-- ===== src/Services.antt =====
-- internal/services: the services behind the GraphQL API.
pub mod Errors
pub mod Types
pub mod Client
pub mod Controller
pub mod Restart
pub mod Workload
pub mod Selectors
pub mod Pods
pub mod Converter
pub mod Age
pub mod PodInfo
pub mod Lists
pub mod Streaming
pub mod Sample
pub mod Traces
pub mod Tests
