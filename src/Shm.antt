-- ===== src/Shm.antt =====
-- shm/mod.rs: the closed metric dimensions and the table of their combinations.
pub mod HttpMethod
pub mod StatusClass
pub mod ProtoVersion
pub mod Combo
pub mod Histogram
pub mod Exemplar
pub mod Zones
