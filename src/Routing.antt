-- ===== src/Routing.antt =====
-- app/Http/Kernel.go: routes, their patterns and URLs, route groups and the route table.
pub mod Tests
pub mod Uri
pub mod Segments
pub mod Pattern
pub mod Url
pub mod Route
pub mod Table
