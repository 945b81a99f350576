-- ===== src/Mocker.antt =====
-- The HTTP mocker (hw4): what a request is compared by (hw4/pkg/mocker), the table of configured
-- replies, and its HTTP and gRPC front ends (hw4/internal/handler).
pub mod Spec
pub mod Engine
pub mod Front
pub mod Examples
