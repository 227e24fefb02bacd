-- ===== src/Host.antt =====
-- The host analyzers of pkg/analyze: the contents that they read (collected_contents.go), their
-- loop over nodes and outcomes (host_analyzer.go), and the analyzers of CPUs (host_cpu.go), memory
-- (host_memory.go), disks (host_disk_usage.go), kernel modules (host_kernel_modules.go), the time
-- (host_time.go) and services (host_services.go).
pub mod Contents
pub mod Evaluate
pub mod Cpu
pub mod Bytes
pub mod Memory
pub mod DiskUsage
pub mod KernelModules
pub mod Time
pub mod Services
mod Tests
mod Sizes
