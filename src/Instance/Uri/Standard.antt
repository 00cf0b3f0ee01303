-- ===== src/Instance/Uri/Standard.antt =====
-- internal/instance/uri.go: the OLCBOX URI, its rendering, its validation and their round trip.
pub mod Render
pub mod Check
pub mod Params
pub mod Payload
pub mod Values
pub mod Token
pub mod Bracket
pub mod Fields
pub mod Body
pub mod RoundTrip
