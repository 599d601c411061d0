-- ===== src/Catalogue.antt =====
-- The catalogues of the unit types and of the building types, under internal/domain.
pub mod Units
pub mod Buildings
