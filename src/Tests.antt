-- ===== src/Tests.antt =====
-- Tests by evaluation, and instances of the theorems at concrete inputs.
mod Split
mod Shadowsocks
mod Reader
mod Tls
mod LenWriter
mod Smart
mod Strategy
mod Finder
mod Socks5
mod Dns
mod Disorder
mod Eyeballs
mod Truncate
mod Intercept
mod Relay
mod Listener
