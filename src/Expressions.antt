-- ===== src/Expressions.antt =====
-- expressions.py: condition, projection, update and key expressions, and the placeholders that
-- their texts go by.
pub mod Parameters
pub mod Fields
pub mod Conditions
pub mod Updates
pub mod Keys
pub mod Meaning
pub mod Algebra
pub mod Debug
pub mod Usage
