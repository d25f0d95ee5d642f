-- ===== src/Data/DiskSpace.antt =====
-- data/disk_space.go and disk_space_unix.go: the free space that a write needs.
use local_kms.Prelude.{ℕ, ◌*◌, ◌%◌, ◌^◌, ltb, Option, none, some, if◌then◌else◌}
use local_kms.Config.{Env}
use local_kms.Data.{DataError, stat_failed, no_space}

abbrev pub min_disk_space_bytes : ℕ
min_disk_space_bytes = 50 * 1024 * 1024

-- `stat.Bavail * uint64(stat.Bsize)` wraps at 64 bits.
abbrev enough : Option (ℕ × ℕ) → Option DataError
enough none = some stat_failed
enough (some (bavail, bsize)) =
    if ltb ((bavail * bsize) % 2 ^ 64) min_disk_space_bytes then some no_space else none

unfoldable pub check_disk_space : Env → Option DataError
check_disk_space env = enough env.statfs
