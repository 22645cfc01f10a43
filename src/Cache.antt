-- ===== src/Cache.antt =====
-- The package go-cache, which the program only calls: an interface with the documented behaviour of
-- New, Get, Set, Delete and Items. `Cache.Table` is an instance, which shows that it can be met.
pub mod Table
pub mod Api
