-- ===== src/Nip02.antt =====
-- crates/fava-nip02/src/edit.rs: the change that follows or unfollows somebody, its bytes, and what
-- it makes of the rows of a contact list.
pub mod Change
pub mod Text
pub mod Codec
pub mod Rows
pub mod RoundTrip
pub mod Contacts
pub mod Follow
pub mod Edit
pub mod Supported
