-- ===== src/Passwords.antt =====
-- What the services use of apps/license-api/internal/argon2id/argon2id.go: a hash that its own
-- password passes.
use vertify_license_platform.Prelude.{ℕ, ◌≡◌, Bool, true, Text}

-- `argon2id.Hash`, from the draw of the salt, and `argon2id.Verify`
pub record Passwords : Type 0 where
  pub hash : ℕ → Text → Text
  pub verify : Text → Text → Bool
  pub verify-hash : (salt : ℕ) (password : Text) → verify password (hash salt password) ≡ true
