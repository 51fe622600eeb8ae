-- ===== src/Proxy.antt =====
-- gateway/internal/proxy: origin health, the load balancer, retries and active probing.
pub mod Origin
pub mod LoadBalancer
pub mod Retry
pub mod Health
pub mod ReverseProxy
mod Examples
