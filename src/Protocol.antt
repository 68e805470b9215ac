-- ===== src/Protocol.antt =====
-- packages/protocol: the wire spellings, the signed preimages of credentials, and SSH keys.
pub mod Requests
pub mod Base64
pub mod Types
pub mod Credentials
pub mod Ssh
pub mod Wire
pub mod IdentityAuth
pub mod Events
