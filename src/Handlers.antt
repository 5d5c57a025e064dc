-- ===== src/Handlers.antt =====
-- internal/api/grpc/handlers: what the gRPC handlers do with a request.
pub mod Producer
pub mod Consumer
pub mod Cluster
