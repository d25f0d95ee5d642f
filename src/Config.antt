-- ===== src/Config.antt =====
-- config/config.go, and what a request finds around it: the settings, one reading of the clock, the
-- disk, and the random bytes that the operating system hands out.
use local_kms.Prelude.{ℕ, Text, codes, Option, ◌++◌, has_prefix, if◌then◌else◌}

-- `now` is in nanoseconds since the epoch. `statfs` is the number of free blocks and their size.
-- `random owner i n` is the i-th draw of n bytes on behalf of `owner`; `uuid` is `uuid.NewRandom`.
pub record Env : Type 0 where
  pub aws_region : Text
  pub aws_account_id : Text
  pub now : ℕ
  pub statfs : Option (ℕ × ℕ)
  pub random : Text → ℕ → ℕ → Text
  pub uuid : Option Text

unfoldable pub arn_prefix : Env → Text
arn_prefix env =
    codes "arn:aws:kms:" ++ (env.aws_region ++ (codes ":" ++ (env.aws_account_id ++ codes ":")))

unfoldable pub ensure_arn : Env → Text → Text → Text
ensure_arn env prefix target =
    if has_prefix (codes "arn:") target then target else arn_prefix env ++ (prefix ++ target)
