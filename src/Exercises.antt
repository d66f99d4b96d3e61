-- ===== src/Exercises.antt =====
-- problemas and problemas-rpc: small servers and clients.
pub mod Retirement
pub mod Salary
pub mod Category
pub mod Credit
pub mod Payroll
pub mod Tests
mod SalaryTests
mod NumberTests
