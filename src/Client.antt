-- ===== src/Client.antt =====
-- semestral/internal/client and the client side of semestral/internal/auth: the session, the local
-- message store, the credentials and the calls of the terminal client.
pub mod Session
pub mod Storage
pub mod Credentials
pub mod Requests
pub mod CreateChat
pub mod ChatList
pub mod MessagesList
pub mod MessagesInput
pub mod Chat
mod Examples
