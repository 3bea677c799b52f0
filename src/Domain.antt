-- ===== src/Domain.antt =====
-- The domain types of internal/domain: verdicts, grades, findings, paths and the certificate.
-- A Go string type with named constants is a data type with a constructor for each constant and
-- `other s` for every other string `s`, the zero value `other []` included.
pub mod Verdict
pub mod Grade
pub mod Finding
pub mod Located
pub mod Certificate
