-- ===== src/ScanApi.antt =====
-- internal/scanapi: the HTTP side of the wallet scans. What it makes of a decoded request is
-- modelled, the HTTP exchange is not.
pub mod Text
pub mod Transition
pub mod Accepted
pub mod Http
pub mod Query
pub mod Rows
pub mod PendingRoutes
pub mod WalletRoutes
pub mod TlsRoutes
pub mod TransitionRoute
pub mod Messages
pub mod Projection
pub mod Guards
pub mod Transitions
pub mod Answers
pub mod Resend
pub mod Serve
pub mod Within
pub mod Reads
pub mod ReadRoutes
pub mod SameFor
pub mod Isolation
pub mod Promises
pub mod Bounds
