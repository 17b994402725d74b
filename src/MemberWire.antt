-- ===== src/MemberWire.antt =====
-- internal/memberwire: the strict decoder of untrusted member-protocol bytes.
pub mod Number
pub mod Runes
pub mod Quoted
pub mod Tokens
pub mod Json
pub mod Grammar
pub mod Build
pub mod Decode
pub mod Shapes
pub mod Requests
pub mod Compatibility
pub mod Lifecycle
pub mod Snapshots
pub mod Outcomes
pub mod Bindings
pub mod Descriptor
