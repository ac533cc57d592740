-- ===== src/Query.antt =====
-- include/queries.hpp: the containers of tuples and the results sets of the preference queries.
pub mod TData
pub mod Dominance
pub mod Skyline
pub mod SkySet
