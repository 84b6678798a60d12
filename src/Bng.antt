-- ===== src/Bng.antt =====
-- otherlibs/num: arithmetic on natural numbers as arrays of digits.
pub mod Digit
pub mod Value
pub mod AddSub
pub mod Shift
pub mod Mult
pub mod Compare
