-- ===== src/Examples.antt =====
-- The programs of examples/ that show the use of the package.
pub mod Profile
pub mod Serving
pub mod Requesting
pub mod Calculator
pub mod Complex
pub mod Large
pub mod Greeting
pub mod Sensors
