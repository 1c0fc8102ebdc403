-- ===== src/Bits.antt =====
-- Laws of `&` and `|` at variables. A number is read as its binary digits: `bit n x` is digit `n`
-- of `x`, the operations act digit by digit, and two numbers with the same digits are equal.
mod Step
mod Digit
mod Mask
mod Laws
mod Pow
unfoldable pub use Digit.{bit}
pub use Digit.*
pub use Mask.*
pub use Laws.*
pub use Pow.*
