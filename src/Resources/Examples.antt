-- ===== src/Resources/Examples.antt =====
-- The theorems on the reconcilers of resources at concrete resources and answers.
mod Groups
mod Repositories
mod Views
mod Tokens
mod Roles
