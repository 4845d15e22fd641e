-- ===== src/Parameter.antt =====
-- managers/parameter.go: the parameter manager. Secrets and randomness are clients of the caller.
pub mod Hex
pub mod Secret
pub mod Manager
pub mod Last
pub mod Additional
pub mod Merged
pub mod Required
