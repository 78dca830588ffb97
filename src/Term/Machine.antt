-- ===== src/Term/Machine.antt =====
-- What the machine of `term_process_char` does, beyond the invariant.
pub mod Recovery
pub mod Titles
pub mod Reading
pub mod Settings
