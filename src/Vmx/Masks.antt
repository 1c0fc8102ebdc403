-- ===== src/Vmx/Masks.antt =====
-- The masks and numbers of the driver, and the architectural ones that it takes from elsewhere.
mod Arch
mod Driver
mod Table
mod Reason
mod Control
mod Access
pub use Arch.*
pub use Driver.*
pub use Table.*
pub use Reason.*
pub use Control.*
pub use Access.*
