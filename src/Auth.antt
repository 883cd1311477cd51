-- ===== src/Auth.antt =====
-- Authentication of the backend: the tables, the password policy, the login with its lockout, and the
-- one-time codes for signup and password reset.
pub mod Db
pub mod Rows
pub mod Login
pub mod Password
pub mod Codes
pub mod Signup
pub mod Verify
pub mod Reset
mod Tests
