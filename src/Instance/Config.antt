-- ===== src/Instance/Config.antt =====
-- internal/instance/config.go: defaults, validation, the proxy and the YAML of an instance.
pub mod Defaults
pub mod Validate
pub mod Proxy
pub mod Yaml
pub mod Warning
pub mod Sound
pub mod Reachable
pub mod Rendered
