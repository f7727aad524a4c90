-- ===== src/Config.antt =====
-- src/config: the limits, the files that they come from, and the lookup of a descriptor.
pub mod Limit
pub mod Yaml
pub mod Xds
pub mod Keys
pub mod Tree
pub mod Load
pub mod Errors
pub mod Lookup
pub mod Found
pub mod RoundTrip
pub mod Renamed
pub mod Wildcards
