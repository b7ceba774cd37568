-- ===== src/Access/Results.antt =====
-- What a request's result says, whatever world it ran in: each theorem is on the results that are
-- no errors.
pub mod Presenter
pub mod Guarded
pub mod Guest
