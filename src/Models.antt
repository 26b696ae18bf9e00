-- ===== src/Models.antt =====
-- internal/models: the records, their normal form and their validation.
pub mod Net
pub mod Record
pub mod RecordSet
pub mod Errors
pub mod DomainName
pub mod Targets
pub mod Soa
pub mod Txt
pub mod Srv
pub mod Caa
pub mod Validate
mod Tests
