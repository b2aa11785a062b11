-- ===== src/Kernel.antt =====
-- The course's kernel modules, and the part of the kernel's own interface that they call.
pub mod Api
pub mod Device
pub mod Client
pub mod Number
pub mod Stack
pub mod Queue
pub mod Config
pub mod MaxTrack
pub mod PerCpu
pub mod SeqLock
pub mod Delayed
pub mod Wakeup
pub mod Timer
pub mod Page
pub mod Slab
pub mod CharDevices
pub mod PseudoFs
pub mod Netfilter
pub mod Probes
pub mod Platform
pub mod Modules
pub mod Stages
pub mod Ordering
pub mod Lifecycle
mod Tests
