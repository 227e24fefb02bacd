-- ===== src/Analyze.antt =====
-- pkg/analyze: the analyzers that turn collected files into results.
pub mod Types
pub mod Outcomes
pub mod Compare
pub mod Status
pub mod Workload
pub mod Deployment
pub mod StatefulSet
pub mod Job
pub mod ReplicaSet
pub mod Run
pub mod Text
pub mod Distribution
mod Tests
