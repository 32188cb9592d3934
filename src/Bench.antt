-- ===== src/Bench.antt =====
-- HW1/part1/part1.cpp: the measurements of the first part. A function that prints returns what it
-- prints; an average that is printed as a quotient of floating-point numbers is returned as its
-- two parts.
pub mod Loop
pub mod Timed
pub mod Sound
pub mod Counts
pub mod Cache
pub mod CacheSafe
pub mod CacheAverage
pub mod Main
pub mod Complete
mod Tests
