-- ===== src/Driver.antt =====
-- software/kernel/tpr.c and tpr.h: the kernel driver.
pub mod Registers
pub mod Device
pub mod Files
pub mod Links
pub mod Lists
pub mod Minors
pub mod Opening
pub mod Closing
pub mod Sessions
pub mod Releases
pub mod Race
pub mod Probe
pub mod Fresh
pub mod Calls
pub mod Reading
pub mod Queues
pub mod Rings
pub mod Events
pub mod Reader
pub mod Messages
pub mod Dma
pub mod Delivery
pub mod Waking
pub mod Handling
pub mod Scanning
pub mod Reach
pub mod Removal
mod Tests
