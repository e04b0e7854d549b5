-- ===== src/Storage/Schema.antt =====
-- storage/schema: the values (`Float`, `Json`), entity.go and relationship.go (`Types`), and
-- validate.go (`Validate`).
pub mod Float
pub mod Json
pub mod Types
pub mod Validate
