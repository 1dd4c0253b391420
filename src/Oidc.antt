-- ===== src/Oidc.antt =====
-- src/oidc: the flows of a login, and the state that they keep between requests.
pub mod State
pub mod SingleFlight
pub mod Device
pub mod Ciba
pub mod IdToken
