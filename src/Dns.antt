-- ===== src/Dns.antt =====
-- dns/resolver.go: the resolvers. Check has what they test of a response, Query what they exchange.
pub mod Check
pub mod Query
