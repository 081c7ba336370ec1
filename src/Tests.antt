-- ===== src/Tests.antt =====
-- The theorems at concrete inputs, and small runs of the definitions.
pub mod Checks
mod Codecs
mod Params
mod Messages
mod Sockets
mod Replies
mod Responses
mod Conversations
mod Logins
mod Routing
mod Templates
mod Pools
mod Tokens
mod Clients
