-- ===== src/Phonebook.antt =====
-- The phone books of "4 work/reference_book.c", "5 work/task1.c" and "6 work/reference_book.c".
pub mod Defs
pub mod Listing
pub mod Menu
pub mod Table
pub mod Fixed
pub mod Blanking
pub mod Dynamic
mod Examples
